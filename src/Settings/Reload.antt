-- ===== src/Settings/Reload.antt =====
-- Code: frontend/src/context/SettingsContext.tsx.
-- What a reload of the page finds.
use vps_dashboard.Common.{
  ◌≡◌, refl, ap, ◌∙◌, arith, String, true, none, some, List, [], ◌∷◌, if◌then◌else◌,
}
use vps_dashboard.Types.{AppSettings, HomeWidgetLayout}
use vps_dashboard.Widgets.{layout_from_widget_ids}
use vps_dashboard.Settings.{
  default_settings, Patch, merge, whole_patch, object, Json, from_parsed, Storage, from_raw,
  load_settings, save_settings, Provider, mount, update_settings, run_updates,
}

-- The layout that a reload shows for a stored one: an empty layout is taken for that of an old
-- version and built anew from the list of widget ids.
abbrev pub reloaded_layout : List HomeWidgetLayout → List String → List HomeWidgetLayout
reloaded_layout [] ids = layout_from_widget_ids ids
reloaded_layout (w ∷ ws) ids = w ∷ ws

from_parsed-whole :
    (s : AppSettings)
    → from_parsed (object (whole_patch s))
      ≡ record s { home_layout = reloaded_layout s.home_layout s.home_widgets }
unfolding from_parsed
from_parsed-whole s = ground arith

module _ (json : Json) where
  open json use {stringify, is_blank, parse, parse-stringify, stringify_not_blank}

  abbrev stored : Storage json → AppSettings → Storage json
  stored storage s = record storage { item = some (stringify s) }

  save-stored :
      (storage : Storage json) (s : AppSettings)
      → storage.writable ≡ true
      → save_settings json storage s ≡ stored storage s
  unfolding save_settings
  save-stored storage s w = ap (λ b. if b then stored storage s else storage) w

  load-stored :
      (storage : Storage json) (s : AppSettings)
      → storage.readable ≡ true
      → load_settings json (stored storage s)
        ≡ record s { home_layout = reloaded_layout s.home_layout s.home_widgets }
  unfolding load_settings
  load-stored storage s r =
      ap (λ b. if b then from_raw json (some (stringify s)) else default_settings) r
      ∙ ap (λ b. if b then default_settings else from_parsed (parse (stringify s)))
          (stringify_not_blank s)
      ∙ ap from_parsed (parse-stringify s)
      ∙ from_parsed-whole s

  -- Settings that were saved are loaded again as they were, if the storage can be read and written,
  -- but for an empty layout: that is built anew from the list of widget ids.
  pub load-save :
      (storage : Storage json) (s : AppSettings)
      → storage.readable ≡ true
      → storage.writable ≡ true
      → load_settings json (save_settings json storage s)
        ≡ record s { home_layout = reloaded_layout s.home_layout s.home_widgets }
  load-save storage s r w = rw (save-stored storage s w) (load-stored storage s r)

  -- The storage is usable, and a reload finds the present settings there, but for an empty layout.
  pub record IsSynced (p : Provider json) : Type 0 where
    pub readable : p.storage.readable ≡ true
    pub writable : p.storage.writable ≡ true
    pub reload : load_settings json p.storage ≡ record (p.settings) {
      home_layout = reloaded_layout p.settings.home_layout p.settings.home_widgets;
    }

  update-IsSynced :
      (p : Provider json) (patch : Patch) → IsSynced p → IsSynced (update_settings json p patch)
  unfolding update_settings save_settings
  update-IsSynced p patch v =
      let e = save-stored p.storage (merge p.settings patch) v.writable in
      record {
        readable = rw e v.readable;
        writable = rw e v.writable;
        reload = rw e (load-stored p.storage (merge p.settings patch) v.readable);
      }

  run-IsSynced :
      (patches : List Patch) (p : Provider json)
      → IsSynced p
      → IsSynced (run_updates json p patches)
  run-IsSynced [] p v = v
  run-IsSynced (patch ∷ patches) p v =
      run-IsSynced patches (update_settings json p patch) (update-IsSynced p patch v)

  -- A browser that has not seen the page yet.
  abbrev pub fresh : Storage json
  fresh = record { item = none; readable = true; writable = true }

  fresh-IsSynced : IsSynced (mount json fresh)
  unfolding mount load_settings
  fresh-IsSynced = record { readable = refl; writable = refl; reload = refl }

  -- After any updates in a browser that is new to the page, a reload shows the settings as they
  -- are, except that an empty layout comes back as the widgets of `homeWidgets`.
  pub reload_lem :
      (patches : List Patch)
      → (let p = run_updates json (mount json fresh) patches in
          load_settings json p.storage ≡ record (p.settings) {
            home_layout = reloaded_layout p.settings.home_layout p.settings.home_widgets;
          })
  reload_lem patches = (run-IsSynced patches (mount json fresh) fresh-IsSynced).reload
