-- ===== src/Registry/Kept/Registering.antt =====
-- What the changes keep, over the methods of registration.
use pass_hub.Base.{
  ok, ℕ, ◌+◌, true, not, Option, none, some, ◌≡◌, arith, leb, if-cases, if-elim, lookup, ℕ_discrete,
}
use pass_hub.Registry.{
  trusted_dependency_failure, EventKey, EntryState, in_flight, unknown, canonical,
  safe_technical_terminal, Entry, new_entry, execution, Setup, Registry, Replies, Returns,
  Capability, find_entry, is_writable,
}
use pass_hub.Registry.Registration.{
  existing_result, compare_artifact, add_entry, register, reserve_candidate, release_reservation,
  compare_reserved, register_reserved, lookup_existing, snapshot, Snapshot, replay, Registration,
  joined, replay_canonical, replay_safe_technical_terminal,
}
use pass_hub.Registry.Rules.{
  call_trusted-rule, assert_owner-rule, transition-rule, require_key-rule, require_capability-rule,
  find-rule, require_reservation-rule,
}
use pass_hub.Registry.Kept.{Closed, freeze-keeps, mint_lease-keeps}

module _ (c : Setup) (P : Registry → Type 0) (closed : Closed c P) where
  pub existing_result-keeps :
      (key : EventKey) (entry : Entry) (r : Registry) → P r → P (existing_result key entry r).0
  unfolding existing_result
  existing_result-keeps key entry r p = from entry.state entry.result_reference
    where
      replays : (kind : ℕ → Registration) (o : Option ℕ) → P (replay kind o r).0
      replays kind none = freeze-keeps c P closed r p trusted_dependency_failure
      replays kind (some result) = p

      from :
          (t : EntryState) (o : Option ℕ)
          → P
              (elim t as (λ _. Returns Registration) [
                | in_flight ↦ (r, ok (joined key entry))
                | unknown ↦ (r, ok (joined key entry))
                | canonical ↦ replay (replay_canonical key entry) o r
                | safe_technical_terminal ↦ replay (replay_safe_technical_terminal key entry) o r
              ]).0
      from in_flight o = p
      from unknown o = p
      from canonical o = replays _ o
      from safe_technical_terminal o = replays _ o

  pub compare_artifact-keeps :
      {A : Type 0} (e : Replies) (r : Registry) (next : Returns A)
      → P r
      → P next.0
      → P (compare_artifact e r next).0
  unfolding compare_artifact
  compare_artifact-keeps {A = A} e r next p n =
      call_trusted-rule (λ (x : Returns A). P x.0) e.same_artifact r _ (freeze-keeps c P closed r p)
        (λ same. if-cases (λ (x : Returns A). P x.0) same _ _ n p)

  pub register-keeps :
      (e : Replies) (key : Capability EventKey) (artifact : Capability ℕ) (observation : ℕ)
      (r : Registry)
      → P r
      → P (register c e key artifact observation r).0
  unfolding register add_entry
  register-keeps e key artifact observation r p =
      transition-rule (λ x. P x.0) e r _ (λ _. p)
        (require_key-rule (λ x. P x.0) key r _ (λ _. p)
          λ k.
            require_capability-rule (λ x. P x.0) artifact r _ (λ _. p)
              λ a.
                find-rule (λ x. P x.0) (find_entry k r) _ _
                  (λ entry h. compare_artifact-keeps e r _ p (existing_result-keeps k entry r p))
                  (λ h.
                    if-cases (λ (x : Returns Registration). P x.0)
                      (not (is_writable c.claim_disposition)) _ _ p
                      (assert_owner-rule (λ x. P x.0) e r _ (freeze-keeps c P closed r p)
                        (if-elim (λ (x : Returns Registration). P x.0)
                          (leb c.capacity (r.size + r.reserved)) _ _ (λ _. p)
                          (λ t.
                            mint_lease-keeps c P closed execution k (new_entry a observation) _
                              (closed.added r k a observation h (ground arith) p))))))

  pub reserve_candidate-keeps : (e : Replies) (r : Registry) → P r → P (reserve_candidate c e r).0
  unfolding reserve_candidate
  reserve_candidate-keeps e r p =
      transition-rule (λ x. P x.0) e r _ (λ _. p)
        (if-cases (λ (x : Returns ℕ). P x.0) (not (is_writable c.claim_disposition)) _ _ p
          (assert_owner-rule (λ x. P x.0) e r _ (freeze-keeps c P closed r p)
            (if-elim (λ (x : Returns ℕ). P x.0) (leb c.capacity (r.size + r.reserved)) _ _ (λ _. p)
              (λ t. closed.claimed r (ground arith) p))))

  pub release_reservation-keeps :
      (e : Replies) (reservation : ℕ) (r : Registry)
      → P r
      → P (release_reservation e reservation r).0
  unfolding release_reservation
  release_reservation-keeps e reservation r p =
      transition-rule (λ x. P x.0) e r _ (λ _. p)
        (require_reservation-rule (λ x. P x.0) reservation r _ (λ _. p)
          (λ h. closed.released r reservation h p))

  pub compare_reserved-keeps :
      (e : Replies) (reservation : ℕ) (key : EventKey) (entry : Entry) (r : Registry)
      → lookup ℕ_discrete reservation r.reservations ≡ some true
      → P r
      → P (compare_reserved e reservation key entry r).0
  unfolding compare_reserved
  compare_reserved-keeps e reservation key entry r h p =
      call_trusted-rule (λ x. P x.0) e.same_artifact r _ (freeze-keeps c P closed r p)
        (λ same.
          if-cases (λ (x : Returns Registration). P x.0) same _ _
            (existing_result-keeps key entry _ (closed.released r reservation h p))
            (closed.released r reservation h p))

  pub register_reserved-keeps :
      (e : Replies) (reservation : ℕ) (key : Capability EventKey)
      (artifact observation : Capability ℕ) (r : Registry)
      → P r
      → P (register_reserved c e reservation key artifact observation r).0
  unfolding register_reserved add_entry
  register_reserved-keeps e reservation key artifact observation r p =
      transition-rule (λ x. P x.0) e r _ (λ _. p)
        (require_reservation-rule (λ x. P x.0) reservation r _ (λ _. p)
          λ g.
            require_key-rule (λ x. P x.0) key r _ (λ _. p)
              λ k.
                require_capability-rule (λ x. P x.0) artifact r _ (λ _. p)
                  λ a.
                    require_capability-rule (λ x. P x.0) observation r _ (λ _. p)
                      λ o.
                        find-rule (λ x. P x.0) (find_entry k r) _ _
                          (λ entry h. compare_reserved-keeps e reservation k entry r g p)
                          (λ h.
                            if-cases (λ (x : Returns Registration). P x.0)
                              (not (is_writable c.claim_disposition)) _ _ p
                              (assert_owner-rule (λ x. P x.0) e r _ (freeze-keeps c P closed r p)
                                (mint_lease-keeps c P closed execution k (new_entry a o) _
                                  (closed.redeemed r k a o reservation h g p)))))

  pub lookup_existing-keeps :
      (e : Replies) (key : Capability EventKey) (artifact : Capability ℕ) (r : Registry)
      → P r
      → P (lookup_existing c e key artifact r).0
  unfolding lookup_existing
  lookup_existing-keeps e key artifact r p =
      transition-rule (λ x. P x.0) e r _ (λ _. p)
        (require_key-rule (λ x. P x.0) key r _ (λ _. p)
          λ k.
            require_capability-rule (λ x. P x.0) artifact r _ (λ _. p)
              λ a.
                find-rule (λ x. P x.0) (find_entry k r) _ _
                  (λ entry h. compare_artifact-keeps e r _ p (existing_result-keeps k entry r p))
                  (λ _. p))

  pub snapshot-keeps : (e : Replies) (r : Registry) → P r → P (snapshot c e r).0
  unfolding snapshot
  snapshot-keeps e r p =
      if-cases (λ (x : Returns Snapshot). P x.0) r.frozen _ _ p
        (transition-rule (λ x. P x.0) e r _ (λ _. p) p)
