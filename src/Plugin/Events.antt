-- ===== src/Plugin/Events.antt =====
-- Which events of the aggregator are turned into xAPI statements.
use openedx_completion_aggre.Prelude.{
  String, ◌≡◌, refl, sym, ap, ◌∙◌, subst, inl, inr, true, Option, none, some, List, [], ◌∷◌, ◌++◌,
  map, All, All-append, In, In-append_right_all, str_eq, str_eq_iff, Bool-cases, arith,
}
use openedx_completion_aggre.Float.{Float}
use openedx_completion_aggre.Platform.{Platform, Settings, member}
use openedx_completion_aggre.Models.{Aggregator, Event, Database}
use openedx_completion_aggre.Models.Manager.{
  events_of, emit_completion_aggregator_logs, update_or_create, bulk_create_or_update,
}
use openedx_completion_aggre.Models.Preserving.{KeptByWrites, Preserves-bulk_create_or_update}
use openedx_completion_aggre.Plugin.{
  EventName, progress, HostSettings, PluginSettings, EnvTokens, default_block_types,
  plugin_settings, aws_plugin_settings, settings_of, ActivityType, activity_course, activity_module,
  transformer_of, get_or,
}

-- The event is on the list for xAPI, and a transformer is registered for it.
abbrev pub IsHandled : List EventName → String → Type 0
IsHandled allowed name =
    In (progress name) allowed × ((t : ActivityType) × (transformer_of (progress name) ≡ some t))

In-member : (name : String) (names : List String) → member name names ≡ true → In name names
In-member name [] h = cc
In-member name (x ∷ names) h = elim (Bool-cases (str_eq name x)) [
  | inl same ↦ inl ((str_eq_iff name x).0 same)
  | inr other ↦ inr (In-member name names (ground (arith, h, other)))
]

course-transformer : (t : ActivityType) × (transformer_of (progress "course") ≡ some t)
unfolding transformer_of
course-transformer = (activity_course, refl)

chapter-transformer : (t : ActivityType) × (transformer_of (progress "chapter") ≡ some t)
unfolding transformer_of
chapter-transformer = (activity_module, refl)

sequential-transformer : (t : ActivityType) × (transformer_of (progress "sequential") ≡ some t)
unfolding transformer_of
sequential-transformer = (activity_module, refl)

vertical-transformer : (t : ActivityType) × (transformer_of (progress "vertical") ≡ some t)
unfolding transformer_of
vertical-transformer = (activity_module, refl)

-- Each of the default block types has an event that is listed and a transformer.
In-IsHandled :
    (before : List EventName) (name : String)
    → In name default_block_types
    → IsHandled (before ++ map progress default_block_types) name
In-IsHandled before name m = (
  In-append_right_all (progress name) before (map progress default_block_types) (listed m),
  found m,
)
  where
    listed : In name default_block_types → In (progress name) (map progress default_block_types)
    listed (inl e) = inl (ap progress e)
    listed (inr (inl e)) = inr (inl (ap progress e))
    listed (inr (inr (inl e))) = inr (inr (inl (ap progress e)))
    listed (inr (inr (inr (inl e)))) = inr (inr (inr (inl (ap progress e))))
    listed (inr (inr (inr (inr m)))) = elim m [ ]

    Found : String → Type 0
    Found x = (t : ActivityType) × (transformer_of (progress x) ≡ some t)

    found : In name default_block_types → Found name
    found (inl e) = subst Found (sym e) course-transformer
    found (inr (inl e)) = subst Found (sym e) chapter-transformer
    found (inr (inr (inl e))) = subst Found (sym e) sequential-transformer
    found (inr (inr (inr (inl e)))) = subst Found (sym e) vertical-transformer
    found (inr (inr (inr (inr m)))) = elim m [ ]

-- No other event types than the four defaults are asked for.
abbrev pub IsWithin : Option (List String) → Type 0
IsWithin none = Unit
IsWithin (some types) =
    (name : String) → member name types ≡ true → member name default_block_types ≡ true

module _ {F : Type 0} (P : String → Type 0) where
  All-events_of :
      (types : List String) (rows : List (Aggregator F))
      → ((name : String) → member name types ≡ true → P name)
      → All (λ (ev : Event F). P ev.event_type) (events_of types rows)
  unfolding events_of
  All-events_of types [] h = tt
  All-events_of types (row ∷ rows) h =
      let more = All-events_of types rows h in
      elim (Bool-cases (member row.aggregation_name types)) [
        | inl tracked ↦ rw tracked (h row.aggregation_name tracked, more)
        | inr untracked ↦ rw untracked more
      ]

update_or_create-events :
    {F : Type 0} ⦃fl : Float F⦄ (platform : Platform) (row : Aggregator F) (db : Database F)
    → (update_or_create platform row db).1.events ≡ db.events
unfolding update_or_create
update_or_create-events platform row db = ground arith

member-IsWithin :
    (types : Option (List String))
    → IsWithin types
    → (name : String) → member name (get_or types default_block_types) ≡ true
    → member name default_block_types ≡ true
member-IsWithin none within name h = h
member-IsWithin (some types) within name h = within name h

module _ {Backends : Type 0} (updated_backends : PluginSettings Backends → Backends)
    (host : HostSettings Backends) (tokens : EnvTokens) (platform : Platform) where
  -- The platform has the settings of the plugin, as the environment changes them.
  abbrev pub IsDeployed : Type 0
  IsDeployed =
      platform.settings
      ≡ settings_of (aws_plugin_settings tokens (plugin_settings updated_backends host))

  abbrev pub allowed_events : List EventName
  allowed_events = (plugin_settings updated_backends host).allowed_xapi_events

  tracked-IsHandled :
      IsWithin tokens.tracking_event_types
      → IsDeployed
      → (name : String) → member name platform.settings.tracking_event_types ≡ true
      → IsHandled allowed_events name
  unfolding plugin_settings aws_plugin_settings
  tracked-IsHandled within deployed name h =
      let tracked = ap (λ (s : Settings). member name s.tracking_event_types) (sym deployed) ∙ h in
      In-IsHandled (get_or host.allowed_xapi_events []) name (
        In-member name default_block_types
          (member-IsWithin tokens.tracking_event_types within name tracked))

  -- The events of a database are all handled.
  abbrev pub AllHandled : {F : Type 0} → Database F → Type 0
  AllHandled {F} db = All (λ (ev : Event F). IsHandled allowed_events ev.event_type) db.events

  AllHandled-KeptByWrites :
      {F : Type 0} ⦃fl : Float F⦄
      → IsWithin tokens.tracking_event_types
      → IsDeployed
      → KeptByWrites platform (AllHandled {F = F})
  unfolding emit_completion_aggregator_logs
  AllHandled-KeptByWrites within deployed = record {
    events = λ rows db h.
        All-append _ db.events (events_of platform.settings.tracking_event_types rows) h (
          All-events_of _ platform.settings.tracking_event_types rows
            (tracked-IsHandled within deployed));
    saved = λ row e db h. subst (All _) (sym (update_or_create-events platform row db)) h;
    written = λ db rows values e h. h;
  }

  -- Where the platform is deployed with the settings of the plugin, and the environment names no
  -- other event types than the four defaults, each event that the manager emits while it writes
  -- aggregators is on the list of the xAPI backend and has a transformer, whether the method
  -- returns or raises; so that where all earlier events are handled, all events are.
  pub bulk_create_or_update-AllHandled :
      {F : Type 0} ⦃fl : Float F⦄ (rows : List (Aggregator F)) (db : Database F)
      → IsWithin tokens.tracking_event_types
      → IsDeployed
      → AllHandled db
      → AllHandled (bulk_create_or_update platform rows db).1
  bulk_create_or_update-AllHandled rows db within deployed =
      Preserves-bulk_create_or_update AllHandled platform (AllHandled-KeptByWrites within deployed)
        rows db
