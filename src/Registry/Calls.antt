-- ===== src/Registry/Calls.antt =====
-- The registry over any calls of its methods.
use pass_hub.Base.{ℕ, List, [], ◌∷◌}
use pass_hub.Registry.{EventKey, Setup, Registry, Replies, Capability}
use pass_hub.Registry.Leases.{
  complete_canonical, complete_safe_technical_terminal, mark_unknown, authorize_continuation,
  resume_unknown,
}
use pass_hub.Registry.Registration.{
  register, reserve_candidate, release_reservation, register_reserved, lookup_existing, snapshot,
}

pub data Call : Type 0 where
  registers : Capability EventKey → Capability ℕ → ℕ → Call
  reserves : Call
  releases : ℕ → Call
  registers_reserved : ℕ → Capability EventKey → Capability ℕ → Capability ℕ → Call
  looks_up : Capability EventKey → Capability ℕ → Call
  marks_unknown : ℕ → Call
  completes_canonical completes_safe : ℕ → Capability ℕ → Call
  authorizes resumes : ℕ → ℕ → Call
  snapshots : Call

unfoldable pub step : Setup → Registry → Replies × Call → Registry
step c r (e, registers key artifact o) = (register c e key artifact o r).0
step c r (e, reserves) = (reserve_candidate c e r).0
step c r (e, releases reservation) = (release_reservation e reservation r).0
step c r (e, registers_reserved n key artifact o) = (register_reserved c e n key artifact o r).0
step c r (e, looks_up key artifact) = (lookup_existing c e key artifact r).0
step c r (e, marks_unknown lease) = (mark_unknown e lease r).0
step c r (e, completes_canonical lease result) = (complete_canonical e lease result r).0
step c r (e, completes_safe lease result) = (complete_safe_technical_terminal e lease result r).0
step c r (e, authorizes lease evidence) = (authorize_continuation e lease evidence r).0
step c r (e, resumes lease permit) = (resume_unknown e lease permit r).0
step c r (e, snapshots) = (snapshot c e r).0

unfoldable pub run : Setup → Registry → List (Replies × Call) → Registry
unfolding step
run c r [] = r
run c r (x ∷ xs) = run c (step c r x) xs
