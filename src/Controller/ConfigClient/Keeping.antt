-- ===== src/Controller/ConfigClient/Keeping.antt =====
-- The active configuration stays one that passed its checks.
use edge_ems.Prelude.{
  ◌≡◌, refl, ◌∙◌, inl, inr, Bool-cases, false, Option, none, some, List, [], ◌∷◌, String,
}
use edge_ems.Prelude.Dict.{Dict}
use edge_ems.Float.{Float}
use edge_ems.Common.Config.{AssetConfigFile}
use edge_ems.Common.Config.Ems.{EdgeEmsConfigFile}
use edge_ems.Common.ConfigManager.{
  Reading, Which, ConfigManager, load_assets, load_ems, validate, update,
}
use edge_ems.Controller.ConfigClient.{targets, all_cached, fetch, write_files, sync, resync}
use edge_ems.Common.ConfigManager.Loading.{
  IsLive, Keeps, reload-Keeps, persist-Keeps, reload_loaded,
}

-- a document put by the API, or a change signal (or a tick of the backstop) with the core's answers
pub data Event (D : Type 0) : Type 0 where
  submitted : Which → D → Event D
  signalled : (String → Option D) → Event D

module _ {D : Type 0} {F : Type 0} ⦃d : Float F⦄ (b : Reading D F) where
  -- the files and the manager after an event
  abbrev pub step : String → Event D → Dict D × ConfigManager F → Dict D × ConfigManager F
  step base (submitted which raw) (files, m) =
      let (files', (m', ok)) = update b which raw files m in (files', m')
  step base (signalled get) (files, m) = resync b get base (files, m)

  abbrev pub after : String → List (Event D) → Dict D × ConfigManager F → Dict D × ConfigManager F
  after base [] s = s
  after base (e ∷ events) s = after base events (step base e s)

  step-Keeps :
      (base : String) (e : Event D) (files : Dict D) (m : ConfigManager F)
      → IsLive m
      → Keeps m ((step base e (files, m)).1)
  unfolding update resync
  step-Keeps base (submitted which raw) files m live = elim (Bool-cases (validate b which raw m)) [
    | inl ok ↦ rw (ok, step, update) (persist-Keeps b which raw files m live)
    | inr bad ↦ rw (bad, step, update) (live, refl)
  ]
  step-Keeps base (signalled get) files m live = elim (Bool-cases ((sync get base files).1)) [
    | inl ok ↦ rw (ok, step, resync) (reload-Keeps b ((sync get base files).0) m live)
    | inr bad ↦ rw (bad, step, resync) (live, refl)
  ]

  after-Keeps :
      (base : String) (events : List (Event D)) (files : Dict D) (m : ConfigManager F)
      → IsLive m
      → Keeps m ((after base events (files, m)).1)
  after-Keeps base [] files m live = (live, refl)
  after-Keeps base (e ∷ events) files m live =
      let (next, same) = step-Keeps base e files m live in
      let (files', m') = step base e (files, m) in
      let (last, same') = after-Keeps base events files' m' next in (last, same' ∙ same)

  -- A core that answers with documents that load: both are in the cache and live.
  resync-fresh :
      (get : String → Option D) (base : String) (fetched files : Dict D) (m : ConfigManager F)
      (a : AssetConfigFile F) (e : EdgeEmsConfigFile F)
      → fetch get base targets ≡ some fetched
      → load_assets b (write_files fetched files) m ≡ some a
      → load_ems b (write_files fetched files) m ≡ some e
      → resync b get base (files, m)
        ≡ (write_files fetched files, record m { asset_config = some a; ems_config = some e })
  unfolding resync sync
  resync-fresh get base fetched files m a e got la le =
      rw (got, sync, resync, reload_loaded b (write_files fetched files) m a e la le) refl

  -- Start with a site and a runtime configuration that have no errors. After any documents put by the
  -- API and any change signals, whatever the core answers, both configurations are still there and
  -- have no errors, for the same data model. Then a document that does not pass the checks changes
  -- neither file nor configuration; a signal that the core does not answer leaves the cached files;
  -- and one that it answers with documents that load from the cache makes them the active ones.
  pub config-after :
      (base : String) (events : List (Event D)) (files : Dict D) (m : ConfigManager F)
      → IsLive m
      → let (files', m') = after base events (files, m) in
        Keeps m m'
        × ((which : Which) (raw : D)
            → validate b which raw m' ≡ false
            → update b which raw files' m' ≡ (files', (m', false)))
        × ((get : String → Option D)
            → fetch get base targets ≡ none
            → (resync b get base (files', m')).0 ≡ files')
        × ((get : String → Option D) (fetched : Dict D) (a : AssetConfigFile F)
              (e : EdgeEmsConfigFile F)
            → fetch get base targets ≡ some fetched
            → load_assets b (write_files fetched files') m' ≡ some a
            → load_ems b (write_files fetched files') m' ≡ some e
            → resync b get base (files', m') ≡ (
              write_files fetched files',
              record m' { asset_config = some a; ems_config = some e },
            ))
  unfolding update resync sync
  config-after base events files m live =
      let (files', m') = after base events (files, m) in
      (
        after-Keeps base events files m live,
        λ which raw bad. rw (bad, update) refl,
        λ get lost. elim (Bool-cases (all_cached targets files')) [
          | inl there ↦ rw (lost, sync, resync, there) refl
          | inr gone ↦ rw (lost, sync, resync, gone) refl
        ],
        λ get fetched a e got la le. resync-fresh get base fetched files' m' a e got la le,
      )
