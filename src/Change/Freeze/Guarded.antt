-- ===== src/Change/Freeze/Guarded.antt =====
-- apps/ops/freeze.py: when a change may go on.
use decisionos.Common.{
  ℕ, ◌≡◌, ◌≢◌, ◌↔◌, refl, inl, inr, String, true, false, Option, none, some, List, [], ◌∷◌, arith,
  str_eq, eq_iff, All, Bool-cases, Option-cases,
}
use decisionos.Judge.Keys.{Stdlib}
use decisionos.Judge.Keys.Loader.{Loader}
use decisionos.Change.PolicyLoader.{Config}
use decisionos.Change.BreakGlass.{Lifted, has_valid_break_glass_iff}
use decisionos.Change.Windows.{Calendar, FreezeWindow, evaluate}
use decisionos.Change.Windows.Parse.{Item}
use decisionos.Change.Windows.Blocks.{Blocks, evaluate_iff}
use decisionos.Change.Freeze.{
  Site, Query, labels_of, flagged, service_of, first_blocking, load_windows, instant_of, by_windows,
  held_by_file, is_freeze_active,
}

module _ (cal : Calendar) (now : ℕ) (service : String) (labels : List String) where
  -- None of the windows blocks the change.
  abbrev pub NoneBlocks : List FreezeWindow → Type 0
  NoneBlocks ws = All (λ w. ¬ Blocks cal w now service labels) ws

  first_blocking_iff :
      (ws : List FreezeWindow)
      → ((first_blocking cal ws now service labels).0 ≡ false) ↔ NoneBlocks ws
  unfolding first_blocking
  first_blocking_iff [] = (λ h. tt, λ h. refl)
  first_blocking_iff (w ∷ ws) =
      let (f, g) = evaluate_iff cal w now service labels in
      let (all, back) = first_blocking_iff ws in
      elim (Bool-cases (evaluate cal w now service labels).0) [
        | inl e ↦ (λ h. absurd (ground arith), λ h. absurd (h.0 (f e)))
        | inr e ↦ (
          λ h. (λ b. absurd (ground (arith, g b)), all (ground arith)),
          λ h. ground (arith, back h.1),
        )
      ]

  first_blocking_reason :
      (ws : List FreezeWindow)
      → (first_blocking cal ws now service labels).0 ≡ false
      → first_blocking cal ws now service labels ≡ (false, "")
  unfolding first_blocking
  first_blocking_reason [] h = refl
  first_blocking_reason (w ∷ ws) h = ground (arith, first_blocking_reason ws)

-- The flag file is not there, or a break-glass manifest lifts it.
abbrev pub FileLifted : {Payload : Type 0} → Stdlib Payload → Site Payload → Type 0
FileLifted std c =
    c.env.freeze_file ≢ "" → c.exists c.env.freeze_file ≡ true → Lifted std c.glass none

held_by_file_iff :
    {Payload : Type 0} (std : Stdlib Payload) (c : Site Payload)
    → (held_by_file std c ≡ some false) ↔ FileLifted std c
unfolding held_by_file
held_by_file_iff std c =
    let (f, g) = has_valid_break_glass_iff std c.glass none in
    (
      λ h given there. f (ground (arith, eq_iff c.env.freeze_file "")),
      λ h. elim (Bool-cases (str_eq c.env.freeze_file "")) [
        | inl e ↦ ground arith
        | inr e ↦ elim (Bool-cases (c.exists c.env.freeze_file)) [
          | inl there ↦
              let lifted =
                g (h (λ q. absurd (ground (arith, eq_iff c.env.freeze_file ""))) there) in
              ground arith
          | inr gone ↦ ground arith
        ]
      ],
    )

module _ {Payload : Type 0} (std : Stdlib Payload) (cal : Calendar) (cfg : Config)
    (array : Payload → Option (List (Option Item))) where
  -- What lets a change go on.
  pub record Open (c : Site Payload) (q : Query) (g : Option Loader) (now : ℕ)
      (ws : List FreezeWindow) : Type 0 where
    pub at : instant_of cal c q ≡ some now
    pub unflagged : flagged c.env (labels_of c.env q.labels) ≡ false
    pub file : FileLifted std c
    pub windows : (load_windows std cal cfg array c g).0 ≡ some ws
    pub none_blocks : NoneBlocks cal now (service_of c.env q.service) (labels_of c.env q.labels) ws

  by_windows-NoneBlocks :
      (c : Site Payload) (q : Query) (now : ℕ) (g : Option Loader)
      → (by_windows std cal cfg array c q now g).0 ≡ some (false, "")
      → (ws : List FreezeWindow) × ((load_windows std cal cfg array c g).0 ≡ some ws)
        × NoneBlocks cal now (service_of c.env q.service) (labels_of c.env q.labels) ws
  unfolding by_windows
  by_windows-NoneBlocks c q now g h = elim (Option-cases (load_windows std cal cfg array c g).0) [
    | inl e ↦ absurd (ground arith)
    | inr (ws, e) ↦ (
      ws,
      e,
      (first_blocking_iff cal now (service_of c.env q.service) (labels_of c.env q.labels) ws).0
          (ground arith),
    )
  ]

  NoneBlocks-by_windows :
      (c : Site Payload) (q : Query) (now : ℕ) (g : Option Loader) (ws : List FreezeWindow)
      → (load_windows std cal cfg array c g).0 ≡ some ws
      → NoneBlocks cal now (service_of c.env q.service) (labels_of c.env q.labels) ws
      → (by_windows std cal cfg array c q now g).0 ≡ some (false, "")
  unfolding by_windows
  NoneBlocks-by_windows c q now g ws e all =
      let service = service_of c.env q.service in
      let labels = labels_of c.env q.labels in
      let clear = (first_blocking_iff cal now service labels ws).1 all in
      ground (arith, first_blocking_reason cal now service labels ws clear)

  module _ (c : Site Payload) (q : Query) (g : Option Loader) where
    record Reaches (now : ℕ) : Type 0 where
      at : instant_of cal c q ≡ some now
      unflagged : flagged c.env (labels_of c.env q.labels) ≡ false
      unheld : held_by_file std c ≡ some false
      result : (by_windows std cal cfg array c q now g).0 ≡ some (false, "")

    reaches :
        (is_freeze_active std cal cfg array c q g).0 ≡ some (false, "") → (now : ℕ) × Reaches now
    unfolding is_freeze_active
    reaches h = elim (Option-cases (instant_of cal c q)) [
      | inl e ↦ absurd (ground arith)
      | inr (now, e) ↦ (now, ground arith)
    ]

    reached :
        (now : ℕ) → Reaches now → (is_freeze_active std cal cfg array c q g).0 ≡ some (false, "")
    unfolding is_freeze_active
    reached now r = ground arith

  -- A change that is not blocked comes with no reason.
  windows-reason :
      (c : Site Payload) (q : Query) (now : ℕ) (g : Option Loader) (reason : String)
      → (by_windows std cal cfg array c q now g).0 ≡ some (false, reason)
      → (by_windows std cal cfg array c q now g).0 ≡ some (false, "")
  unfolding by_windows
  windows-reason c q now g reason h = elim (Option-cases (load_windows std cal cfg array c g).0) [
    | inl e ↦ absurd (ground arith)
    | inr (ws, e) ↦ ground (
      arith,
      first_blocking_reason cal now (service_of c.env q.service) (labels_of c.env q.labels) ws,
    )
  ]

  pub unblocked-reason :
      (c : Site Payload) (q : Query) (g : Option Loader) (reason : String)
      → (is_freeze_active std cal cfg array c q g).0 ≡ some (false, reason)
      → (is_freeze_active std cal cfg array c q g).0 ≡ some (false, "")
  unfolding is_freeze_active
  unblocked-reason c q g reason h = elim (Option-cases (instant_of cal c q)) [
    | inl e ↦ absurd (ground arith)
    | inr (now, e) ↦ ground (arith, windows-reason c q now g reason)
  ]

  pub is_freeze_active_iff :
      (c : Site Payload) (q : Query) (g : Option Loader)
      → ((is_freeze_active std cal cfg array c q g).0 ≡ some (false, ""))
        ↔ ((now : ℕ) × (ws : List FreezeWindow) × Open c q g now ws)
  is_freeze_active_iff c q g =
      let (held, lifted) = held_by_file_iff std c in
      (
        λ h.
            let (now, r) = reaches c q g h in
            let (ws, loaded, all) = by_windows-NoneBlocks c q now g r.result in
            (
              now,
              ws,
              record {
                at = r.at;
                unflagged = r.unflagged;
                file = held r.unheld;
                windows = loaded;
                none_blocks = all;
              },
            ),
        λ (now, ws, o). reached c q g now (record {
          at = o.at;
          unflagged = o.unflagged;
          unheld = lifted o.file;
          result = NoneBlocks-by_windows c q now g ws o.windows o.none_blocks;
        }),
      )
