-- ===== src/Registry/Kept/Runs.antt =====
-- What the changes keep, over any calls.
use pass_hub.Base.{List, [], ◌∷◌, refl}
use pass_hub.Registry.{canonical, safe_technical_terminal, Setup, Registry, Replies}
use pass_hub.Registry.Calls.{
  Call, registers, reserves, releases, registers_reserved, looks_up, marks_unknown,
  completes_canonical, completes_safe, authorizes, resumes, snapshots, step, run,
}
use pass_hub.Registry.Lifecycle.{is_live}
use pass_hub.Registry.Kept.{Closed}
use pass_hub.Registry.Kept.Settling.{
  finish_terminal-keeps, mark_unknown-keeps, authorize_continuation-keeps, resume_unknown-keeps,
}
use pass_hub.Registry.Kept.Registering.{
  register-keeps, reserve_candidate-keeps, release_reservation-keeps, register_reserved-keeps,
  lookup_existing-keeps, snapshot-keeps,
}

module _ (c : Setup) (P : Registry → Type 0) (closed : Closed c P) where
  step-keeps : (x : Replies × Call) (r : Registry) → P r → P (step c r x)
  unfolding step is_live
  step-keeps (e, registers key artifact o) r p = register-keeps c P closed e key artifact o r p
  step-keeps (e, reserves) r p = reserve_candidate-keeps c P closed e r p
  step-keeps (e, releases n) r p = release_reservation-keeps c P closed e n r p
  step-keeps (e, registers_reserved n key artifact o) r p =
      register_reserved-keeps c P closed e n key artifact o r p
  step-keeps (e, looks_up key artifact) r p = lookup_existing-keeps c P closed e key artifact r p
  step-keeps (e, marks_unknown lease) r p = mark_unknown-keeps c P closed e lease r p
  step-keeps (e, completes_canonical lease result) r p =
      finish_terminal-keeps c P closed canonical e lease result r refl p
  step-keeps (e, completes_safe lease result) r p =
      finish_terminal-keeps c P closed safe_technical_terminal e lease result r refl p
  step-keeps (e, authorizes lease evidence) r p =
      authorize_continuation-keeps c P closed e lease evidence r p
  step-keeps (e, resumes lease permit) r p = resume_unknown-keeps c P closed e lease permit r p
  step-keeps (e, snapshots) r p = snapshot-keeps c P closed e r p

  pub run-keeps : (xs : List (Replies × Call)) (r : Registry) → P r → P (run c r xs)
  unfolding run
  run-keeps [] r p = p
  run-keeps (x ∷ xs) r p = run-keeps xs (step c r x) (step-keeps x r p)
