-- ===== src/Registry/Kept/Settling.antt =====
-- What the changes keep, over the methods of a lease.
use pass_hub.Base.{ℕ, ◌+◌, Bool, true, false, not, ◌&&◌, ◌||◌, some, ◌≡◌, refl, arith, if-elim}
use pass_hub.Registry.{
  EntryState, in_flight, unknown, canonical, safe_technical_terminal, Entry, LeaseState, LeaseKind,
  execution, confirmation, PermitState, Setup, Registry, Replies, Returns, Capability, find_entry,
}
use pass_hub.Registry.Leases.{
  end_lease, finish_live, finish_terminal, mark_live, mark_unknown, authorize_verified,
  authorize_live, authorize_continuation, consumed, resume_live, resume_unknown, is_execution,
  is_in_flight, is_unknown,
}
use pass_hub.Registry.Lifecycle.{loses_result, is_authorized, continues, finishes, is_live}
use pass_hub.Registry.Rules.{
  call_trusted-rule, assert_owner-rule, transition-rule, require_capability-rule,
  require_lease-rule, require_kind-rule, require_permit-rule,
}
use pass_hub.Registry.Kept.{
  Closed, freeze-keeps, end_lease-keeps, end_permit-keeps, mint_lease-keeps,
}

may_finish-is_live :
    (k : LeaseKind) (t : EntryState)
    → (is_execution k && not (is_in_flight t)) ≡ false
    → (not (is_execution k) && not (is_unknown t)) ≡ false
    → is_live t ≡ true
unfolding is_live
may_finish-is_live k in_flight u v = refl
may_finish-is_live k unknown u v = refl
may_finish-is_live execution canonical u v = cc
may_finish-is_live confirmation canonical u v = cc
may_finish-is_live execution safe_technical_terminal u v = cc
may_finish-is_live confirmation safe_technical_terminal u v = cc

is_in_flight_lem : (t : EntryState) → not (is_in_flight t) ≡ false → t ≡ in_flight
is_in_flight_lem in_flight u = refl
is_in_flight_lem unknown u = cc
is_in_flight_lem canonical u = cc
is_in_flight_lem safe_technical_terminal u = cc

is_unknown_lem : (t : EntryState) → not (is_unknown t) ≡ false → t ≡ unknown
is_unknown_lem unknown u = refl
is_unknown_lem in_flight u = cc
is_unknown_lem canonical u = cc
is_unknown_lem safe_technical_terminal u = cc

may_resume-is_unknown :
    (t : EntryState) (b : Bool) → (not (is_unknown t) || not b) ≡ false → (t ≡ unknown) × (b ≡ true)
may_resume-is_unknown unknown true u = (refl, refl)
may_resume-is_unknown unknown false u = cc
may_resume-is_unknown in_flight b u = cc
may_resume-is_unknown canonical b u = cc
may_resume-is_unknown safe_technical_terminal b u = cc

module _ (c : Setup) (P : Registry → Type 0) (closed : Closed c P) where
  pub finish_live-keeps :
      (state : EntryState) (lease : ℕ) (r : Registry) (result : ℕ) (s : LeaseState) (entry : Entry)
      → is_live state ≡ false
      → find_entry s.entry r ≡ some entry
      → P r
      → P (finish_live state lease r result s entry).0
  unfolding finish_live
  finish_live-keeps state lease r result s entry n h p =
      if-elim (λ (x : Returns (Unit {0})). P x.0)
        (is_execution s.kind && not (is_in_flight entry.state)) _ _ (λ _. p)
        (λ t.
          if-elim (λ (x : Returns (Unit {0})). P x.0)
            (not (is_execution s.kind) && not (is_unknown entry.state)) _ _ (λ _. p)
            (λ u.
              closed.moved (end_lease lease s r) s.entry entry _ h
                (finishes state result (may_finish-is_live s.kind entry.state t u) n refl)
                (end_lease-keeps c P closed r lease s p)))

  pub finish_terminal-keeps :
      (state : EntryState) (e : Replies) (lease : ℕ) (reference : Capability ℕ) (r : Registry)
      → is_live state ≡ false
      → P r
      → P (finish_terminal state e lease reference r).0
  unfolding finish_terminal
  finish_terminal-keeps state e lease reference r n p =
      transition-rule (λ x. P x.0) e r _ (λ _. p)
        (require_capability-rule (λ x. P x.0) reference r _ (λ _. p)
          λ result.
            require_lease-rule (λ x. P x.0) lease r _ (λ _. p)
              (λ s. end_lease-keeps c P closed r lease s p)
              λ s entry h.
                assert_owner-rule (λ x. P x.0) e r _ (freeze-keeps c P closed r p)
                  (finish_live-keeps state lease r result s entry n h p))

  pub mark_live-keeps :
      (lease : ℕ) (r : Registry) (s : LeaseState) (entry : Entry)
      → find_entry s.entry r ≡ some entry
      → P r
      → P (mark_live lease r s entry).0
  unfolding mark_live
  mark_live-keeps lease r s entry h p =
      if-elim (λ (x : Returns ℕ). P x.0) (not (is_in_flight entry.state)) _ _ (λ _. p)
        (λ t. mint_lease-keeps c P closed confirmation s.entry entry _ (
          closed.moved (end_lease lease s r) s.entry entry _ h
            (loses_result (is_in_flight_lem entry.state t) refl)
            (end_lease-keeps c P closed r lease s p)))

  pub mark_unknown-keeps :
      (e : Replies) (lease : ℕ) (r : Registry) → P r → P (mark_unknown e lease r).0
  unfolding mark_unknown
  mark_unknown-keeps e lease r p =
      transition-rule (λ x. P x.0) e r _ (λ _. p)
        (require_kind-rule (λ x. P x.0) true lease r _ (λ _. p)
          (λ s. end_lease-keeps c P closed r lease s p)
          λ s entry h.
            assert_owner-rule (λ x. P x.0) e r _ (freeze-keeps c P closed r p)
              (mark_live-keeps lease r s entry h p))

  pub authorize_verified-keeps :
      (evidence : ℕ) (r : Registry) (s : LeaseState) (entry : Entry)
      → find_entry s.entry r ≡ some entry
      → entry.state ≡ unknown
      → entry.continuation_authorized ≡ false
      → P r
      → P (authorize_verified evidence r s entry).0
  unfolding authorize_verified
  authorize_verified-keeps evidence r s entry h u v p =
      closed.moved _ s.entry entry _ h (is_authorized u v refl)
        (closed.other r r.leases _ _ r.frozen (r.minted + 1) (omega arith) p)

  pub authorize_live-keeps :
      (e : Replies) (evidence : ℕ) (r : Registry) (s : LeaseState) (entry : Entry)
      → find_entry s.entry r ≡ some entry
      → P r
      → P (authorize_live e evidence r s entry).0
  unfolding authorize_live
  authorize_live-keeps e evidence r s entry h p =
      if-elim (λ (x : Returns ℕ). P x.0) (not (is_unknown entry.state)) _ _ (λ _. p)
        (λ t.
          if-elim (λ (x : Returns ℕ). P x.0) entry.continuation_authorized _ _ (λ _. p)
            (λ v.
              if-elim (λ (x : Returns ℕ). P x.0) (consumed evidence r.consumed_evidence) _ _
                (λ _. p)
                (λ _.
                  call_trusted-rule (λ x. P x.0) e.verifier r _ (freeze-keeps c P closed r p)
                    (λ _.
                      authorize_verified-keeps evidence r s entry h (is_unknown_lem entry.state t) v
                        p))))

  pub authorize_continuation-keeps :
      (e : Replies) (lease evidence : ℕ) (r : Registry)
      → P r
      → P (authorize_continuation e lease evidence r).0
  unfolding authorize_continuation
  authorize_continuation-keeps e lease evidence r p =
      transition-rule (λ x. P x.0) e r _ (λ _. p)
        (require_kind-rule (λ x. P x.0) false lease r _ (λ _. p)
          (λ s. end_lease-keeps c P closed r lease s p)
          λ s entry h.
            assert_owner-rule (λ x. P x.0) e r _ (freeze-keeps c P closed r p)
              (authorize_live-keeps e evidence r s entry h p))

  pub resume_live-keeps :
      (lease permit : ℕ) (q : PermitState) (r : Registry) (s : LeaseState) (entry : Entry)
      → find_entry s.entry r ≡ some entry
      → P r
      → P (resume_live lease permit q r s entry).0
  unfolding resume_live
  resume_live-keeps lease permit q r s entry h p =
      if-elim (λ (x : Returns ℕ). P x.0)
        (not (is_unknown entry.state) || not entry.continuation_authorized) _ _ (λ _. p)
        (λ t.
          mint_lease-keeps c P closed execution s.entry
            (record entry {
              continuation_authorized = false;
              generation = entry.generation + 1;
              state = in_flight;
            })
            _
            (closed.moved _ s.entry entry _ h
              (continues (may_resume-is_unknown entry.state entry.continuation_authorized t).0
                (may_resume-is_unknown entry.state entry.continuation_authorized t).1 refl)
              (end_permit-keeps c P closed _ permit q (end_lease-keeps c P closed r lease s p))))

  pub resume_unknown-keeps :
      (e : Replies) (lease permit : ℕ) (r : Registry) → P r → P (resume_unknown e lease permit r).0
  unfolding resume_unknown
  resume_unknown-keeps e lease permit r p =
      transition-rule (λ x. P x.0) e r _ (λ _. p)
        (require_kind-rule (λ x. P x.0) false lease r _ (λ _. p)
          (λ s. end_lease-keeps c P closed r lease s p)
          λ s entry h.
            require_permit-rule (λ x. P x.0) permit s r _ (λ _. p)
              (λ q. end_permit-keeps c P closed r permit q p)
              λ q.
                assert_owner-rule (λ x. P x.0) e r _ (freeze-keeps c P closed r p)
                  (resume_live-keeps lease permit q r s entry h p))
