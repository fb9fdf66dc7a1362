-- ===== src/Api/Tests.antt =====
-- The state of a Kyma with one ready and one unmanaged module.
use lifecycle_manager.Prelude.{◌≡◌, refl, false, [], ◌∷◌, none}
use lifecycle_manager.Api.States.{State, ready, warning, error, unmanaged}
use lifecycle_manager.Api.Kymas.{ModuleStatus, KymaStatus, determine_state}

abbrev some_module : State → ModuleStatus
some_module s = record {
  name = "module";
  fqdn = "";
  ocm_component_name = "kyma-project.io/module/module";
  channel = "regular";
  version = "1.0.0";
  message = "";
  state = s;
  manifest = none;
  resource = none;
  template = none;
  maintenance = false;
}

abbrev some_status : KymaStatus
some_status = record {
  last_operation = "";
  state = ready;
  conditions = [];
  modules = some_module ready ∷ some_module unmanaged ∷ [];
  active_channel = "regular";
}

-- The unmanaged module does not count, and a module in Error comes before one in Warning.
ready_test : determine_state some_status ≡ ready
unfolding determine_state
ready_test = refl

error_test :
    determine_state (record some_status {
      modules = some_module warning ∷ some_module ready ∷ some_module error ∷ [];
    })
    ≡ error
unfolding determine_state
error_test = refl
