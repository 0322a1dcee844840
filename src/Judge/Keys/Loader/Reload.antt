-- ===== src/Judge/Keys/Loader/Reload.antt =====
-- What a reload of the keys of apps/judge/crypto.py loads, and when it does.
use decisionos.Common.{
  ℕ, suc, ◌-◌, ◌+◌, ◌≤◌, ◌∙◌, String, ◌≡◌, ◌≢◌, refl, false, not, ◌&&◌, Option, none, some, List,
  [], ◌∷◌, ◌++◌, arith, ltb, Option-cases, Bool-cases, inl, inr, str_eq, if◌then◌else◌,
}
use decisionos.Common.Dict.{Dict, lookup, insert, lookup-insert, lookup-empty, values}
use decisionos.Judge.Keys.Material.{Stdlib, active, KeyMaterial, Item, to_material}
use decisionos.Judge.Keys.Loader.{
  ttl, Loader, World, read_source, changed, load_items, reload_if_needed, force_reload,
  first_active, choose_active,
}

read_source_present :
    (w : World) (file env : List Item)
    → w.file_items ≡ some file
    → w.env_items ≡ some env
    → file ++ env ≢ []
    → read_source w ≡ (file ++ env) ++ w.ssm_items
unfolding read_source
read_source_present w [] [] ef ee ne = absurd (ne refl)
read_source_present w [] (i ∷ env) ef ee ne = ground arith
read_source_present w (i ∷ file) env ef ee ne = ground arith

-- The last entry with a key id, as material.
module _ {Payload : Type 0} (std : Stdlib Payload) where
  abbrev pub last_with : String → List Item → Option KeyMaterial → Option KeyMaterial
  last_with k [] found = found
  last_with k (i ∷ l) found = elim (to_material std i) [
    | none ↦ last_with k l found
    | some km ↦ last_with k l (if str_eq km.key_id k then some km else found)
  ]

  lookup-load_items :
      (k : String) (l : List Item) (m m' : Dict KeyMaterial)
      → load_items std m l ≡ some m'
      → lookup k m' ≡ last_with k l (lookup k m)
  unfolding load_items
  lookup-load_items k [] m m' h = ground arith
  lookup-load_items k (i ∷ l) m m' h = elim (Option-cases (to_material std i)) [
    | inl e ↦ ground arith
    | inr (km, e) ↦
        ground
          (arith, lookup-load_items k l (insert km.key_id km m) m', lookup-insert km.key_id k km m)
  ]

  last_with-append :
      (k : String) (a b : List Item) (found : Option KeyMaterial)
      → last_with k (a ++ b) found ≡ last_with k b (last_with k a found)
  last_with-append k [] b found = refl
  last_with-append k (i ∷ a) b found = elim (Option-cases (to_material std i)) [
    | inl e ↦ ground (arith, last_with-append k a b found)
    | inr (km, e) ↦
        ground (arith, last_with-append k a b (if str_eq km.key_id k then some km else found))
  ]

  force_reload-read_source :
      (w : World) (s : Loader) (k : String)
      → (force_reload std w s).0 ≡ false
      → lookup k (force_reload std w s).1.keys ≡ last_with k (read_source w) none
  unfolding force_reload
  force_reload-read_source w s k h = elim (Option-cases (load_items std [] (read_source w))) [
    | inl e ↦ ground arith
    | inr (m, e) ↦
        ground (arith, lookup-load_items k (read_source w) [] m e, lookup-empty {V = KeyMaterial} k)
  ]

  -- A forced reload that does not raise gives each key id its last entry in the sources, so that an
  -- entry of the environment hides one of the file, and an entry of the plugin hides both; where the
  -- file or the environment has an entry the legacy key is not read.
  pub lookup-force_reload :
      (w : World) (s : Loader) (k : String) (file env : List Item)
      → w.file_items ≡ some file
      → w.env_items ≡ some env
      → file ++ env ≢ []
      → (force_reload std w s).0 ≡ false
      → lookup k (force_reload std w s).1.keys
        ≡ last_with k w.ssm_items (last_with k env (last_with k file none))
  lookup-force_reload w s k file env ef ee ne h =
      force_reload-read_source w s k h
      ∙ rw (read_source_present w file env ef ee ne, last_with-append, last_with-append) refl

  -- Within 5 s of a load, while the file's time does not change, a call reads nothing anew.
  pub reload_cached :
      (w : World) (s : Loader)
      → suc w.now ≤ s.cache_ts + ttl
      → w.mtime ≡ s.file_mtime
      → reload_if_needed std false w s ≡ (false, s)
  unfolding reload_if_needed
  reload_cached w s h e = ground arith

first_active-some :
    (l : List KeyMaterial) (km : KeyMaterial) → first_active l ≡ some km → km.state ≡ active
unfolding first_active
first_active-some [] km h = cc
first_active-some (x ∷ l) km h = ground (arith, first_active-some l km)

changed_self : (m : Option ℕ) → changed m m ≡ false
changed_self none = refl
changed_self (some a) = ground arith

module _ {Payload : Type 0} (std : Stdlib Payload) where
  -- A second call in the same surroundings changes nothing.
  pub reload-reload :
      (w : World) (s : Loader)
      → (reload_if_needed std false w s).0 ≡ false
      → reload_if_needed std false w (reload_if_needed std false w s).1
        ≡ (false, (reload_if_needed std false w s).1)
  unfolding reload_if_needed
  reload-reload w s h =
      elim (Bool-cases (not (changed w.mtime s.file_mtime) && ltb (w.now - s.cache_ts) ttl)) [
        | inl e ↦ ground (arith, changed_self w.mtime)
        | inr e ↦ elim (Option-cases (load_items std [] (read_source w))) [
          | inl f ↦ ground arith
          | inr (m, f) ↦ ground (arith, changed_self w.mtime)
        ]
      ]

  -- `choose_active` gives a key of the loaded ones that is active, whenever it gives one.
  pub choose_active-active :
      (w : World) (s : Loader) (km : KeyMaterial)
      → (choose_active std w s).0 ≡ some (some km)
      → km.state ≡ active
  unfolding choose_active
  choose_active-active w s km h =
      ground (arith, first_active-some (values (reload_if_needed std false w s).1.keys) km)
