-- ===== src/MeshControl/Acks.antt =====
-- What `on_ack` of lib/mb-mesh-control/src/lib.rs settles, and the account of the bytes in flight.
use meshbus_rs.Prelude.{ℕ, ◌+◌, ◌-◌, ◌≤◌, nat_eq, filter}
use meshbus_rs.Prelude.{Bool, true, false, not, List, [], ◌∷◌, ◌++◌, some}
use meshbus_rs.Prelude.{lookup, remove, keys, if◌then◌else◌, IsMap, contains_key, Bool-cases}
use meshbus_rs.Prelude.{◌≡◌, refl, ap, sym, arith, ◌∙◌, inl, inr}
use meshbus_rs.MeshProto.Types.{SeqRange, AckNack}
use meshbus_rs.MeshControl.{
  InflightPackage, AckUpdate, MeshPathController, missing, settle, settle_all, lose, acknowledge,
  on_ack,
}

-- The map without a key that it does not have.
remove_absent : (k : ℕ) (m : List (ℕ × InflightPackage)) → contains_key k m ≡ false → remove k m ≡ m
remove_absent k [] h = refl
remove_absent k ((j, p) ∷ m) h = ground (arith, remove_absent k m)

append_assoc {ℓ} : {A : Type ℓ} (xs ys zs : List A) → (xs ++ ys) ++ zs ≡ xs ++ (ys ++ zs)
append_assoc [] ys zs = refl
append_assoc (x ∷ xs) ys zs = ap (λ t. x ∷ t) (append_assoc xs ys zs)

append_nil {ℓ} : {A : Type ℓ} (xs : List A) → xs ++ [] ≡ xs
append_nil [] = refl
append_nil (x ∷ xs) = ap (λ t. x ∷ t) (append_nil xs)

-- What a package adds to the bytes in flight.
abbrev pub counted : InflightPackage → ℕ
counted p = if p.ack_eliciting then p.size else 0

unfoldable pub eliciting_bytes : List (ℕ × InflightPackage) → ℕ
eliciting_bytes [] = 0
eliciting_bytes ((k, p) ∷ m) = counted p + eliciting_bytes m

-- What the loop of `on_ack` leaves, told from the packages in flight.
record Settled (ranges : List SeqRange) (m : List (ℕ × InflightPackage)) (c : MeshPathController)
    (u : AckUpdate) (c' : MeshPathController) (u' : AckUpdate) : Type 0 where
  empties : c'.inflight ≡ []
  acked : u'.acked_seqs ≡ u.acked_seqs ++ filter (λ k. not (missing ranges k)) (keys m)
  lost : u'.lost_seqs ≡ u.lost_seqs ++ filter (missing ranges) (keys m)
  freed : c'.bytes_in_flight ≤ c.bytes_in_flight - eliciting_bytes m

lookup_head :
    (k : ℕ) (p : InflightPackage) (m : List (ℕ × InflightPackage)) → lookup k ((k, p) ∷ m) ≡ some p
lookup_head k p m = ground arith

remove_head :
    (k : ℕ) (p : InflightPackage) (m : List (ℕ × InflightPackage))
    → contains_key k m ≡ false
    → remove k ((k, p) ∷ m) ≡ m
remove_head k p m h = ground (arith, remove_absent k m h)

chained :
    (f : ℕ → Bool) (k : ℕ) (ks x w : List ℕ) {y z : List ℕ}
    → z ≡ y ++ filter f ks
    → y ≡ x ++ w
    → w ++ filter f ks ≡ filter f (k ∷ ks)
    → z ≡ x ++ filter f (k ∷ ks)
chained f k ks x w e e' h =
    e ∙ ap (λ t. t ++ filter f ks) e' ∙ append_assoc x w (filter f ks) ∙ ap (λ t. x ++ t) h

-- The same of one turn of the loop, for the first package in flight.
record HeadSettled (ranges : List SeqRange) (k : ℕ) (p : InflightPackage)
    (m : List (ℕ × InflightPackage)) (c : MeshPathController) (u : AckUpdate)
    (c' : MeshPathController) (u' : AckUpdate) : Type 0 where
  shortens : c'.inflight ≡ m
  head_acked : u'.acked_seqs ≡ u.acked_seqs ++ (if missing ranges k then [] else k ∷ [])
  head_lost : u'.lost_seqs ≡ u.lost_seqs ++ (if missing ranges k then k ∷ [] else [])
  head_freed : c'.bytes_in_flight ≤ c.bytes_in_flight - counted p

module _ (ranges : List SeqRange) (d now : ℕ) where
  lose-HeadSettled :
      (k : ℕ) (p : InflightPackage) (m : List (ℕ × InflightPackage)) (c : MeshPathController)
      (u : AckUpdate)
      → missing ranges k ≡ true
      → remove k c.inflight ≡ m
      → HeadSettled ranges k p m c u (lose c u k (some p)).0 (lose c u k (some p)).1
  unfolding lose
  lose-HeadSettled k p m c u lost e = record {
    shortens = e;
    head_acked = rw lost (sym (append_nil u.acked_seqs));
    head_lost = rw lost refl;
    head_freed = ground arith;
  }

  acknowledge-HeadSettled :
      (k : ℕ) (p : InflightPackage) (m : List (ℕ × InflightPackage)) (c : MeshPathController)
      (u : AckUpdate)
      → missing ranges k ≡ false
      → remove k c.inflight ≡ m
      → HeadSettled ranges k p m c u
          (acknowledge c u d now k (some p)).0
          (acknowledge c u d now k (some p)).1
  unfolding acknowledge
  acknowledge-HeadSettled k p m c u kept e = record {
    shortens = ground (arith, e);
    head_acked = rw kept refl;
    head_lost = rw kept (sym (append_nil u.lost_seqs));
    head_freed = ground arith;
  }

  settle-HeadSettled :
      (k : ℕ) (p : InflightPackage) (m : List (ℕ × InflightPackage)) (c : MeshPathController)
      (u : AckUpdate)
      → c.inflight ≡ (k, p) ∷ m
      → contains_key k m ≡ false
      → HeadSettled ranges k p m c u
          (settle ranges d now k (c, u)).0
          (settle ranges d now k (c, u)).1
  unfolding settle
  settle-HeadSettled k p m c u e h =
      let found : lookup k c.inflight ≡ some p = ap (λ t. lookup k t) e ∙ lookup_head k p m in
      let rest : remove k c.inflight ≡ m = ap (λ t. remove k t) e ∙ remove_head k p m h in
      elim (Bool-cases (missing ranges k)) [
        | inl lost ↦ rw (lost, found) (lose-HeadSettled k p m c u lost rest)
        | inr kept ↦ rw (kept, found) (acknowledge-HeadSettled k p m c u kept rest)
      ]

  prepend-Settled :
      (k : ℕ) (p : InflightPackage) (m : List (ℕ × InflightPackage)) (c c' c'' : MeshPathController)
      (u u' u'' : AckUpdate)
      → HeadSettled ranges k p m c u c' u'
      → Settled ranges m c' u' c'' u''
      → Settled ranges ((k, p) ∷ m) c u c'' u''
  unfolding eliciting_bytes
  prepend-Settled k p m c c' c'' u u' u'' h t = record {
    empties = t.empties;
    acked =
        chained (λ j. not (missing ranges j)) k (keys m) u.acked_seqs _ t.acked h.head_acked
          (ground arith);
    lost = chained (missing ranges) k (keys m) u.lost_seqs _ t.lost h.head_lost (ground arith);
    freed = omega (arith, t.freed, h.head_freed);
  }

  settle_all-Settled :
      (m : List (ℕ × InflightPackage)) (c : MeshPathController) (u : AckUpdate)
      → c.inflight ≡ m
      → IsMap m
      → Settled ranges m c u
          (settle_all ranges d now (keys m) (c, u)).0
          (settle_all ranges d now (keys m) (c, u)).1
  unfolding settle_all eliciting_bytes
  settle_all-Settled [] c u e h = record {
    empties = e;
    acked = sym (append_nil u.acked_seqs);
    lost = sym (append_nil u.lost_seqs);
    freed = omega arith;
  }
  settle_all-Settled ((k, p) ∷ m) c u e (h, hs) =
      let first = settle-HeadSettled k p m c u e h in
      let s = settle ranges d now k (c, u) in
      prepend-Settled k p m c s.0 (settle_all ranges d now (keys m) s).0 u s.1
        (settle_all ranges d now (keys m) s).1 first
        (settle_all-Settled m s.0 s.1 first.shortens hs)

-- If no number is in flight twice, `on_ack` settles every package in flight: those that a missing
-- range names are reported lost, and all others acknowledged, in the order of the map.
pub on_ack_settles :
    (c : MeshPathController) (ack : AckNack) (d now : ℕ)
    → IsMap c.inflight
    → ((on_ack c ack d now).0.inflight ≡ [])
      × ((on_ack c ack d now).1.acked_seqs
          ≡ filter (λ k. not (missing ack.missing_ranges k)) (keys c.inflight))
      × ((on_ack c ack d now).1.lost_seqs ≡ filter (missing ack.missing_ranges) (keys c.inflight))
unfolding on_ack
on_ack_settles c ack d now h =
    let s =
      settle_all-Settled ack.missing_ranges d now c.inflight c
        (record { acked_seqs = []; lost_seqs = [] }) refl h in
    (ground (arith, s.empties), s.acked, s.lost)

pub on_ack-bytes_in_flight :
    (c : MeshPathController) (ack : AckNack) (d now : ℕ)
    → IsMap c.inflight
    → (on_ack c ack d now).0.bytes_in_flight ≤ c.bytes_in_flight - eliciting_bytes c.inflight
unfolding on_ack
on_ack-bytes_in_flight c ack d now h =
    let s =
      settle_all-Settled ack.missing_ranges d now c.inflight c
        (record { acked_seqs = []; lost_seqs = [] }) refl h in
    ground (arith, s.freed)
