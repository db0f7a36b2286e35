-- ===== src/Examples/Deployments.antt =====
-- A site with the settings of the plugin, whose environment drops two event types.
use openedx_completion_aggre.Prelude.{ℕ, ◌≡◌, refl, true, false, none, some, [], ◌∷◌, arith}
use openedx_completion_aggre.Float.{thousandths}
use openedx_completion_aggre.Platform.{Platform}
use openedx_completion_aggre.Models.Manager.{bulk_create_or_update}
use openedx_completion_aggre.Plugin.{
  other, HostSettings, PluginSettings, EnvTokens, plugin_settings, aws_plugin_settings, settings_of,
  get_result,
}
use openedx_completion_aggre.Plugin.Events.{IsWithin, AllHandled, bulk_create_or_update-AllHandled}
use openedx_completion_aggre.Examples.{platform, empty_database}
use openedx_completion_aggre.Examples.Writes.{chapter_row}

-- The backends are the number of events that they route.
abbrev routed : PluginSettings ℕ → ℕ
routed s = s.event_tracking_backends

abbrev host : HostSettings ℕ
host = record {
  allowed_xapi_events = some (other "edx.course.enrollment.activated" ∷ []);
  allowed_caliper_events = none;
  event_tracking_backends = 1;
}

abbrev tokens : EnvTokens
tokens = record {
  tracking_event_types = some ("course" ∷ "chapter" ∷ []);
  block_types = none;
  async_aggregation = some true;
  aggregation_lock = none;
  aggregation_lock_timeout_seconds = none;
  cleanup_lock = none;
  cleanup_lock_timeout_seconds = none;
  aggregate_unreleased_blocks = none;
}

abbrev deployed : Platform
deployed = record platform {
  settings = settings_of (aws_plugin_settings tokens (plugin_settings routed host));
}

tokens-IsWithin : IsWithin tokens.tracking_event_types
tokens-IsWithin name h = ground arith

bulk_create_or_update-AllHandled_example :
    AllHandled routed host tokens deployed
      (bulk_create_or_update deployed (chapter_row ∷ []) empty_database).1
bulk_create_or_update-AllHandled_example =
    bulk_create_or_update-AllHandled routed host tokens deployed (chapter_row ∷ []) empty_database
      tokens-IsWithin refl tt

-- A learner who completed a quarter.
get_result_quarter : get_result {F = ℕ} (some 250) ≡ record { completion = false; progress = 25000 }
unfolding get_result
get_result_quarter = refl
