-- ===== src/MeshProto/Replay/Cache.antt =====
-- The replay cache: one window for each key, and what no sequence of packets gets past it.
use meshbus_rs.Prelude.{ℕ, ◌*◌, ◌/◌, ◌≤◌, max, beq-cases, beq_refl, sym, ◌∙◌, nat_eq}
use meshbus_rs.Prelude.{true, List, [], ◌∷◌, contains, lookup-insert}
use meshbus_rs.Prelude.{ok, if◌then◌else◌, ◌≡◌, ◌≢◌, refl, arith, inl, inr}
use meshbus_rs.Prelude.{Bool-cases}
use meshbus_rs.MeshProto.Replay.{WindowKey, window_key_eq, window_key_eq_inst}
use meshbus_rs.MeshProto.Replay.{MeshSecReplayCache, new_cache, or_new, window_of, check_window}
use meshbus_rs.MeshProto.Replay.{check_and_insert}
use meshbus_rs.MeshProto.Replay.Refine.{Represents, accept, new_window-Represents}
use meshbus_rs.MeshProto.Replay.Refine.{check_window_refines, contains_above}

-- The counters accepted under each key.
abbrev pub Accepted : Type 0
Accepted = WindowKey → List ℕ

abbrev pub accepted_under : WindowKey → List ℕ → Accepted → Accepted
accepted_under k counters acc j = if window_key_eq k j then counters else acc j

-- The bitmap is large enough for the window: so it is for fewer than 64 bits, and for whole words.
abbrev pub Fits : ℕ → Type 0
Fits window_bits = window_bits ≤ max (window_bits / 64) 1 * 64

pub record Holds (window_bits : ℕ) (c : MeshSecReplayCache) (acc : Accepted) : Type 0 where
  pub bits_are : c.window_bits ≡ window_bits
  pub words_are : c.words ≡ max (window_bits / 64) 1
  pub windows_hold : (k : WindowKey) → Represents window_bits (window_of c k) (acc k)

pub new_cache-Holds :
    (window_bits : ℕ) → Fits window_bits → Holds window_bits (new_cache window_bits) (λ k. [])
unfolding new_cache window_of or_new
new_cache-Holds window_bits fits = record {
  bits_are = refl;
  words_are = refl;
  windows_hold =
      λ k. new_window-Represents window_bits (max (window_bits / 64) 1) (omega arith) fits;
}

window_of-check :
    (c : MeshSecReplayCache) (k j : WindowKey) (n : ℕ)
    → window_of (check_and_insert c k n).1 j ≡ (
        if window_key_eq k j
        then (check_window c.window_bits (window_of c k) n).1
        else window_of c j)
unfolding check_and_insert window_of or_new
window_of-check c k j n =
    rw lookup-insert (elim (Bool-cases (window_key_eq k j)) [ inl e ↦ rw e | inr e ↦ rw e ])

-- If the cache's windows hold the counters accepted under each key, a packet is answered by the rule
-- on the counters of its key, and the windows hold the counters accepted then, under every key.
pub check_and_insert_refines :
    {window_bits : ℕ} {c : MeshSecReplayCache} {acc : Accepted} (k : WindowKey) (n : ℕ)
    → Holds window_bits c acc
    → let (answer, c') = check_and_insert c k n in
      let (answer', counters) = accept window_bits (acc k) n in
      (answer ≡ answer') × Holds window_bits c' (accepted_under k counters acc)
unfolding check_and_insert
check_and_insert_refines {window_bits} {c} {acc} k n h =
    let (answers, holds) = check_window_refines (h.windows_hold k) n in
    (
      simp h.bits_are answers,
      record {
        bits_are = h.bits_are;
        words_are = h.words_are;
        windows_hold = λ j. rw (window_of-check c k j n) (elim (Bool-cases (window_key_eq k j)) [
          | inl e ↦ simp (e, h.bits_are) holds
          | inr e ↦ simp e (h.windows_hold j)
        ]);
      },
    )

-- The packets of one cache, in the order in which they come.
unfoldable pub after_calls : MeshSecReplayCache → List (WindowKey × ℕ) → MeshSecReplayCache
after_calls c [] = c
after_calls c ((k, n) ∷ calls) = after_calls (check_and_insert c k n).1 calls

-- Accepted counters stay accepted.
abbrev IsKept : Accepted → Accepted → Type 0
IsKept acc acc' = (k : WindowKey) (n : ℕ) → contains n (acc k) ≡ true → contains n (acc' k) ≡ true

accept_keeps :
    (window_bits : ℕ) (counters : List ℕ) (n m : ℕ)
    → contains m counters ≡ true
    → contains m (accept window_bits counters n).1 ≡ true
accept_keeps window_bits counters n m h = ground arith

accept_adds :
    (window_bits : ℕ) (counters : List ℕ) (n : ℕ)
    → (accept window_bits counters n).0 ≡ ok tt
    → contains n (accept window_bits counters n).1 ≡ true
accept_adds window_bits counters n h = ground arith

-- What was accepted is refused.
accept_once :
    (window_bits : ℕ) (counters : List ℕ) (n : ℕ)
    → contains n counters ≡ true
    → (accept window_bits counters n).0 ≢ ok tt
accept_once window_bits (m ∷ counters) n h e = ground (arith, contains_above (m ∷ counters) n)
accept_once window_bits [] n h e = cc

after_calls-Holds :
    {window_bits : ℕ} (calls : List (WindowKey × ℕ)) {c : MeshSecReplayCache} {acc : Accepted}
    → Holds window_bits c acc
    → (acc' : Accepted) × Holds window_bits (after_calls c calls) acc' × IsKept acc acc'
unfolding after_calls
after_calls-Holds [] {acc = acc} h = (acc, h, λ k n p. p)
after_calls-Holds {window_bits} ((k, n) ∷ calls) {c} {acc} h =
    let (answers, holds) = check_and_insert_refines k n h in
    let (acc', holds', kept) = after_calls-Holds calls holds in
    (
      acc',
      holds',
      λ j m p. kept j m (elim (beq-cases k j) [
        | inl q ↦ rw q.0 (accept_keeps window_bits (acc k) n m (rw (← q.1) at p))
        | inr q ↦ rw q.0 p
      ]),
    )

-- No packet passes twice: once a counter was accepted under a key, it is refused under that key
-- after any further packets, whatever came before, if the bitmap is large enough for the window.
pub no_replay :
    (window_bits : ℕ) (before between : List (WindowKey × ℕ)) (k : WindowKey) (n : ℕ)
    → Fits window_bits
    → (check_and_insert (after_calls (new_cache window_bits) before) k n).0 ≡ ok tt
    → (check_and_insert
        (after_calls (check_and_insert (after_calls (new_cache window_bits) before) k n).1 between)
        k
        n).0
      ≢ ok tt
no_replay window_bits before between k n fits accepted again =
    let (acc, holds, kept) = after_calls-Holds before (new_cache-Holds window_bits fits) in
    let (answer, holds1) = check_and_insert_refines k n holds in
    let (acc2, holds2, kept2) = after_calls-Holds between holds1 in
    let (answer2, holds3) = check_and_insert_refines k n holds2 in
    accept_once window_bits (acc2 k) n
      (kept2 k n (rw (beq_refl k) (accept_adds window_bits (acc k) n (sym answer ∙ accepted))))
      (sym answer2 ∙ again)
