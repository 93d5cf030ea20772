-- ===== src/Registry/Rules.antt =====
-- How the checks of the methods end: in a throw, or in what follows with what was checked.
use pass_hub.Base.{
  ℕ, Bool, true, false, not, Option, none, some, ◌≡◌, refl, ◌==◌, if◌then◌else◌, if-cases, lookup,
  ℕ_discrete,
}
use mathlib.Core.Logic.{ite}
use pass_hub.Registry.{
  EventKey, EventKey-discrete, Entry, LeaseState, PermitState, Registry, Replies, Returns,
  Capability, issued, unissued, foreign, TrustedReply, returns, fails, passes_on_reentry,
  drops_reentry, ErrorCode, deny, freeze, call_trusted, assert_owner, transition, require_key,
  require_capability, find_entry, invalid_lease, stale_lease, stale_permit, invalid_permit,
  permit_already_used, lease_already_used, invalid_reservation, reservation_already_used,
}
use pass_hub.Registry.Leases.{
  require_lease, require_kind, require_permit, end_lease, end_permit, is_execution,
}
use pass_hub.Registry.Registration.{require_reservation}

module _ {A : Type 0} (Q : Returns A → Type 0) where
  pub call_trusted-rule :
      {B : Type 0} (reply : TrustedReply B) (r : Registry) (next : B → Returns A)
      → ((code : ErrorCode) → Q (freeze r code))
      → ((b : B) → Q (next b))
      → Q (call_trusted reply r next)
  unfolding call_trusted
  call_trusted-rule (returns b) r next f n = n b
  call_trusted-rule fails r next f n = f _
  call_trusted-rule passes_on_reentry r next f n = f _
  call_trusted-rule drops_reentry r next f n = f _

  pub assert_owner-rule :
      (e : Replies) (r : Registry) (next : Returns A)
      → ((code : ErrorCode) → Q (freeze r code))
      → Q next
      → Q (assert_owner e r next)
  unfolding assert_owner
  assert_owner-rule e r next f n = call_trusted-rule e.owner r (λ done. next) f (λ done. n)

  pub transition-rule :
      (e : Replies) (r : Registry) (work : Returns A)
      → ((code : ErrorCode) → Q (deny r code))
      → Q work
      → Q (transition e r work)
  unfolding transition
  transition-rule e r work d w =
      if-cases Q e.bridge_notifying _ _ (d _) (if-cases Q r.frozen _ _ (d _) w)

  pub require_key-rule :
      (key : Capability EventKey) (r : Registry) (next : EventKey → Returns A)
      → ((code : ErrorCode) → Q (deny r code))
      → ((k : EventKey) → Q (next k))
      → Q (require_key key r next)
  unfolding require_key
  require_key-rule unissued r next d n = d _
  require_key-rule foreign r next d n = d _
  require_key-rule (issued k) r next d n = n k

  pub require_capability-rule :
      (c : Capability ℕ) (r : Registry) (next : ℕ → Returns A)
      → ((code : ErrorCode) → Q (deny r code))
      → ((a : ℕ) → Q (next a))
      → Q (require_capability c r next)
  unfolding require_capability
  require_capability-rule unissued r next d n = d _
  require_capability-rule foreign r next d n = d _
  require_capability-rule (issued a) r next d n = n a

  pub find-rule :
      (o : Option Entry) (found : Entry → Returns A) (missing : Returns A)
      → ((entry : Entry) → o ≡ some entry → Q (found entry))
      → (o ≡ none → Q missing)
      → Q (elim o [ none ↦ missing | some entry ↦ found entry ])
  find-rule none found missing f m = m refl
  find-rule (some entry) found missing f m = f entry refl

  with_lease-rule :
      (lease : ℕ) (r : Registry) (o : Option LeaseState) (next : LeaseState → Entry → Returns A)
      → ((code : ErrorCode) → Q (deny r code))
      → ((s : LeaseState) → Q (deny (end_lease lease s r) stale_lease))
      → ((s : LeaseState) (entry : Entry) → find_entry s.entry r ≡ some entry → Q (next s entry))
      → Q (elim o [
        | none ↦ deny r invalid_lease
        | some s ↦ elim (find_entry s.entry r) [
          | none ↦ deny r invalid_lease
          | some entry ↦
              if not s.active
              then deny r lease_already_used
              else if not (s.generation == entry.generation)
              then deny (end_lease lease s r) stale_lease
              else next s entry
        ]
      ])
  with_lease-rule lease r none next d g n = d _
  with_lease-rule lease r (some s) next d g n =
      find-rule (find_entry s.entry r) _ _
        (λ entry h.
          if-cases Q (not s.active) _ _ (d _)
            (if-cases Q (not (s.generation == entry.generation)) _ _ (g s) (n s entry h)))
        (λ _. d _)

  pub require_lease-rule :
      (lease : ℕ) (r : Registry) (next : LeaseState → Entry → Returns A)
      → ((code : ErrorCode) → Q (deny r code))
      → ((s : LeaseState) → Q (deny (end_lease lease s r) stale_lease))
      → ((s : LeaseState) (entry : Entry) → find_entry s.entry r ≡ some entry → Q (next s entry))
      → Q (require_lease lease r next)
  unfolding require_lease
  require_lease-rule lease r next d g n =
      with_lease-rule lease r (lookup ℕ_discrete lease r.leases) next d g n

  pub require_kind-rule :
      (wants : Bool) (lease : ℕ) (r : Registry) (next : LeaseState → Entry → Returns A)
      → ((code : ErrorCode) → Q (deny r code))
      → ((s : LeaseState) → Q (deny (end_lease lease s r) stale_lease))
      → ((s : LeaseState) (entry : Entry) → find_entry s.entry r ≡ some entry → Q (next s entry))
      → Q (require_kind wants lease r next)
  unfolding require_kind
  require_kind-rule wants lease r next d g n = require_lease-rule lease r _ d g λ s entry h.
      if-cases Q (is_execution s.kind) _ _ (if-cases Q wants _ _ (n s entry h) (d _))
        (if-cases Q wants _ _ (d _) (n s entry h))

  with_permit-rule :
      (permit : ℕ) (s : LeaseState) (r : Registry) (o : Option PermitState)
      (next : PermitState → Returns A)
      → ((code : ErrorCode) → Q (deny r code))
      → ((p : PermitState) → Q (deny (end_permit permit p r) stale_permit))
      → ((p : PermitState) → Q (next p))
      → Q (elim o [
        | none ↦ deny r invalid_permit
        | some p ↦
            if not p.active
            then deny r permit_already_used
            else ite
                (EventKey-discrete p.entry s.entry)
                (if p.generation == s.generation
                  then next p
                  else deny (end_permit permit p r) stale_permit)
                (deny (end_permit permit p r) stale_permit)
      ])
  with_permit-rule permit s r none next d g n = d _
  with_permit-rule permit s r (some p) next d g n = if-cases Q (not p.active) _ _ (d _) (
      ite-cases (EventKey-discrete p.entry s.entry) _ _
        (if-cases Q (p.generation == s.generation) _ _ (n p) (g p)) (g p))
    where
      ite-cases : {X : Type 0} (x : Dec X) (a b : Returns A) → Q a → Q b → Q (ite x a b)
      ite-cases (yes h) a b u v = u
      ite-cases (no h) a b u v = v

  pub require_permit-rule :
      (permit : ℕ) (s : LeaseState) (r : Registry) (next : PermitState → Returns A)
      → ((code : ErrorCode) → Q (deny r code))
      → ((p : PermitState) → Q (deny (end_permit permit p r) stale_permit))
      → ((p : PermitState) → Q (next p))
      → Q (require_permit permit s r next)
  unfolding require_permit
  require_permit-rule permit s r next d g n =
      with_permit-rule permit s r (lookup ℕ_discrete permit r.permits) next d g n

  pub require_reservation-rule :
      (reservation : ℕ) (r : Registry) (next : Returns A)
      → ((code : ErrorCode) → Q (deny r code))
      → (lookup ℕ_discrete reservation r.reservations ≡ some true → Q next)
      → Q (require_reservation reservation r next)
  unfolding require_reservation
  require_reservation-rule reservation r next d n =
      from (lookup ℕ_discrete reservation r.reservations) refl
    where
      from :
          (o : Option Bool)
          → lookup ℕ_discrete reservation r.reservations ≡ o
          → Q (elim o [
            | none ↦ deny r invalid_reservation
            | some active ↦ if active then next else deny r reservation_already_used
          ])
      from none h = d _
      from (some true) h = n h
      from (some false) h = d _
