-- ===== src/Plugin.antt =====
-- completion_aggregator/settings and completion_aggregator/xapi.py: the settings of the plugin, and
-- the xAPI statements for its events.
--
-- `event_tracking_backends_config`, and the update of `EVENT_TRACKING_BACKENDS` with what it returns,
-- is a parameter.
pub mod Events
use openedx_completion_aggre.Prelude.{
  ℕ, String, Bool, false, ◌||◌, Option, none, some, List, [], ◌∷◌, ◌++◌, map, str_eq, if◌then◌else◌,
}
use openedx_completion_aggre.Float.{Float}
use openedx_completion_aggre.Platform.{Settings}

-- The name of an event: `openedx.completion_aggregator.progress.` with a block type, or another.
pub data EventName : Type 0 where
  progress other : String → EventName

-- What is there before the plugin's settings: `none` is a missing attribute.
pub record HostSettings (Backends : Type 0) : Type 0 where
  pub allowed_xapi_events : Option (List EventName)
  pub allowed_caliper_events : Option (List EventName)
  pub event_tracking_backends : Backends

pub record PluginSettings (Backends : Type 0) : Type 0 where
  pub block_types : List String
  pub tracking_event_types : List String
  pub async_aggregation : Bool
  pub aggregation_lock : String
  pub cleanup_lock : String
  pub aggregation_lock_timeout_seconds : ℕ
  pub cleanup_lock_timeout_seconds : ℕ
  pub aggregate_unreleased_blocks : Bool
  pub allowed_xapi_events : List EventName
  pub allowed_caliper_events : List EventName
  pub event_tracking_backends : Backends

-- `settings.ENV_TOKENS`
pub record EnvTokens : Type 0 where
  pub tracking_event_types : Option (List String)
  pub block_types : Option (List String)
  pub async_aggregation : Option Bool
  pub aggregation_lock : Option String
  pub aggregation_lock_timeout_seconds : Option ℕ
  pub cleanup_lock : Option String
  pub cleanup_lock_timeout_seconds : Option ℕ
  pub aggregate_unreleased_blocks : Option Bool

-- `tokens.get(name, default)`
abbrev pub get_or {ℓ} : {A : Type ℓ} → Option A → A → A
get_or none default = default
get_or (some value) default = value

abbrev pub default_block_types : List String
default_block_types = "course" ∷ "chapter" ∷ "sequential" ∷ "vertical" ∷ []

module _ {Backends : Type 0} where
  -- `plugin_settings` of settings/common.py.
  unfoldable pub plugin_settings :
      (PluginSettings Backends → Backends) → HostSettings Backends → PluginSettings Backends
  plugin_settings updated_backends host =
      let allowed : PluginSettings Backends = record {
        block_types = default_block_types;
        tracking_event_types = default_block_types;
        async_aggregation = false;
        aggregation_lock = "COMPLETION_AGGREGATOR_AGGREGATION_LOCK";
        cleanup_lock = "COMPLETION_AGGREGATOR_CLEANUP_LOCK";
        aggregation_lock_timeout_seconds = 1800;
        cleanup_lock_timeout_seconds = 900;
        aggregate_unreleased_blocks = false;
        allowed_xapi_events =
            get_or host.allowed_xapi_events [] ++ map progress default_block_types;
        allowed_caliper_events = get_or host.allowed_caliper_events [];
        event_tracking_backends = host.event_tracking_backends;
      } in
      record allowed { event_tracking_backends = updated_backends allowed }

  -- `plugin_settings` of settings/aws.py.
  unfoldable pub aws_plugin_settings : EnvTokens → PluginSettings Backends → PluginSettings Backends
  aws_plugin_settings tokens s = record s {
    tracking_event_types = get_or tokens.tracking_event_types s.tracking_event_types;
    block_types = get_or tokens.block_types s.block_types;
    async_aggregation = get_or tokens.async_aggregation s.async_aggregation;
    aggregation_lock = get_or tokens.aggregation_lock s.aggregation_lock;
    aggregation_lock_timeout_seconds =
        get_or tokens.aggregation_lock_timeout_seconds s.aggregation_lock_timeout_seconds;
    cleanup_lock = get_or tokens.cleanup_lock s.cleanup_lock;
    cleanup_lock_timeout_seconds =
        get_or tokens.cleanup_lock_timeout_seconds s.cleanup_lock_timeout_seconds;
    aggregate_unreleased_blocks =
        get_or tokens.aggregate_unreleased_blocks s.aggregate_unreleased_blocks;
  }

  -- The settings that the aggregator reads.
  abbrev pub settings_of : PluginSettings Backends → Settings
  settings_of s = record {
    block_types = s.block_types;
    tracking_event_types = s.tracking_event_types;
    async_aggregation = s.async_aggregation;
  }

-- `object_type`
pub data ActivityType : Type 0 where
  activity_module activity_course : ActivityType

-- The transformer that is registered for an event, with its object type.
unfoldable pub transformer_of : EventName → Option ActivityType
transformer_of (other name) = none
transformer_of (progress name) =
    if str_eq name "chapter" || (str_eq name "sequential" || str_eq name "vertical")
    then some activity_module
    else if str_eq name "course"
    then some activity_course
    else none

-- The completion and the progress of a statement.
pub record XapiResult (F : Type 0) : Type 0 where
  pub completion : Bool
  pub progress : F

-- `BaseProgressTransformer.get_result`, on `data.percent`.
unfoldable pub get_result : {F : Type 0} ⦃fl : Float F⦄ → Option F → XapiResult F
get_result ⦃fl⦄ percent =
    let done = get_or percent fl.nought in
    record { completion = fl.eq done fl.unit; progress = fl.times done (fl.of_int 100) }
