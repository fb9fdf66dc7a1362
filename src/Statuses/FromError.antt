-- ===== src/Statuses/FromError.antt =====
-- What a failed lookup of its template leaves of the status of an installed module.
use lifecycle_manager.Prelude.{
  String, ◌≡◌, refl, Bool, true, false, ◌||◌, inl, inr, Bool-cases, some, arith,
}
use lifecycle_manager.Errors.{Error}
use lifecycle_manager.Api.{ModuleStatus, State, error, warning}
use lifecycle_manager.Modules.{CommonModule, Objects}
use lifecycle_manager.Templates.{ModuleTemplateInfo}
use lifecycle_manager.Statuses.Generate.{
  error_is_waiting_for_maintenance_window, error_is_maintenance_window_unknown,
  error_is_forbidden_template_update, status_kept, generate_module_status_from_error,
  generate_module_status,
}
use lifecycle_manager.Statuses.Update.{new_module_status}

-- The module keeps running in its version: nothing is known of it but that an update waits.
abbrev pub is_update_held_back : Error → Bool
is_update_held_back e =
    error_is_waiting_for_maintenance_window e
    || error_is_maintenance_window_unknown e
    || error_is_forbidden_template_update e

-- Two statuses of a module in the same version with the same objects.
pub record SameInstallation (a b : ModuleStatus) : Type 0 where
  pub same_name : a.name ≡ b.name
  pub same_channel : a.channel ≡ b.channel
  pub same_version : a.version ≡ b.version
  pub same_manifest : a.manifest ≡ b.manifest
  pub same_template : a.template ≡ b.template
  pub same_resource : a.resource ≡ b.resource

-- What stays of the status `s` of a module whose template has the error `e`, and what changes.
pub record HeldBack (text : Error → String) (e : Error) (s new : ModuleStatus) : Type 0 where
  pub installation : SameInstallation new s
  pub told : new.message ≡ text e
  pub waiting :
      error_is_waiting_for_maintenance_window e ≡ true
      → (new.state ≡ s.state) × (new.maintenance ≡ true)
  pub refused :
      error_is_waiting_for_maintenance_window e ≡ false
      → error_is_maintenance_window_unknown e ≡ false
      → (new.state ≡ warning) × (new.maintenance ≡ s.maintenance)

module _ (text : Error → String) (objects : Objects) where
  changed :
      (s : ModuleStatus) (m : String) (state : State) (b : Bool)
      → SameInstallation (record s { message = m; state = state; maintenance = b }) s
  changed s m state b = record {
    same_name = refl;
    same_channel = refl;
    same_version = refl;
    same_manifest = refl;
    same_template = refl;
    same_resource = refl;
  }

  held_back :
      (e : Error) (s : ModuleStatus)
      → is_update_held_back e ≡ true
      → (new : ModuleStatus) × (status_kept text e s ≡ some new) × HeldBack text e s new
  unfolding status_kept
  held_back e s h = elim (Bool-cases (error_is_waiting_for_maintenance_window e)) [
    | inl wait ↦ (
      record s { message = text e; maintenance = true },
      rw wait refl,
      record {
        installation = changed s (text e) s.state true;
        told = refl;
        waiting = λ w. (refl, refl);
        refused = λ w u. absurd (ground (arith, wait, w));
      },
    )
    | inr no_wait ↦ elim (Bool-cases (error_is_maintenance_window_unknown e)) [
      | inl unknown ↦ (
        record s { message = text e; state = error },
        rw no_wait (rw unknown refl),
        record {
          installation = changed s (text e) error s.maintenance;
          told = refl;
          waiting = λ w. absurd (ground (arith, no_wait, w));
          refused = λ w u. absurd (ground (arith, unknown, u));
        },
      )
      | inr known ↦
          let refused : error_is_forbidden_template_update e ≡ true =
            ground (arith, h, no_wait, known) in
          (
            record s { message = text e; state = warning },
            rw no_wait (rw known (rw refused refl)),
            record {
              installation = changed s (text e) warning s.maintenance;
              told = refl;
              waiting = λ w. absurd (ground (arith, no_wait, w));
              refused = λ w u. (refl, refl);
            },
          )
    ]
  ]

  -- An installed module whose template has an error that only holds its update back (a maintenance
  -- window to wait for or that is unknown, a refused version, a missing ModuleReleaseMeta) keeps
  -- its channel, version and objects in the status, with the text of the error as the message. A
  -- module that waits keeps its state and is marked for maintenance; one whose version is refused
  -- has a warning.
  pub new_module_status-HeldBack :
      (c : CommonModule) (info : ModuleTemplateInfo) (e : Error) (s : ModuleStatus)
      → c.template_info ≡ some info
      → info.err ≡ some e
      → is_update_held_back e ≡ true
      → HeldBack text e s (new_module_status text objects c (some s))
  unfolding new_module_status generate_module_status generate_module_status_from_error
  new_module_status-HeldBack c info e s has_info has_error h =
      let (new, kept, held) = held_back e s h in
      rw (has_info, new_module_status, generate_module_status) (rw has_error (rw kept held))
