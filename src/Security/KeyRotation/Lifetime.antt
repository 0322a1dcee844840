-- ===== src/Security/KeyRotation/Lifetime.antt =====
-- What scripts/ops/key_rotation.py makes of the keys of a rotation, and of their dates.
use mathlib.Core.Path.{subst}
use decisionos.Common.{
  ℕ, ◌+◌, ◌≡◌, refl, ap, ◌∙◌, inl, inr, String, true, false, ◌||◌, Option, none, some, List, [],
  ◌∷◌, arith, str_eq, ltb, if◌then◌else◌, eq_refl, Among, Bool-cases, Option-cases, List-cases,
}
use decisionos.Security.KeyRotation.{
  Calendar, Parsed, invalid, naive, aware, Key, Expiry, days, expiry_code, expiry_date, sort_key,
  sort_keys, is_text, check_key_expiry, rotate_one, rotate_key, retire_one, retire_grace_keys,
}

-- How bad the date of a key is: in the past, in less than the days of the warning, or neither.
abbrev severity : ℕ → ℕ → ℕ → ℕ
severity now threshold t = if ltb t now then 2 else if ltb t threshold then 1 else 0

abbrev worse : ℕ → ℕ → ℕ
worse a b = if ltb a b then b else a

abbrev pub worse_of : ℕ → ℕ → Parsed → Option ℕ → Option ℕ
worse_of now threshold invalid b = b
worse_of now threshold naive b = none
worse_of now threshold (aware t) none = none
worse_of now threshold (aware t) (some b) = some (worse (severity now threshold t) b)

-- The worst severity of the keys that have a date with a zone; `none` where a date has no zone.
abbrev pub worst : Calendar → ℕ → ℕ → List Key → Option ℕ
worst cal now threshold [] = some 0
worst cal now threshold (k ∷ ks) =
    worse_of now threshold (expiry_date cal k) (worst cal now threshold ks)

abbrev code_of : Option Expiry → Option ℕ
code_of none = none
code_of (some e) = some (expiry_code e)

module _ (cal : Calendar) where
  sort_key-worse :
      (t now threshold : ℕ) (k : Key) (e : Expiry)
      → code_of (sort_key cal (aware t) now threshold k (some e))
        ≡ some (worse (severity now threshold t) (expiry_code e))
  unfolding sort_key
  sort_key-worse t now threshold k e = elim (List-cases e.expired) [
    | inl none_gone ↦ elim (List-cases e.expiring_soon) [
      | inl none_soon ↦ ground arith
      | inr soon ↦ ground arith
    ]
    | inr gone ↦ ground arith
  ]

  sort_key-worst :
      (o : Parsed) (now threshold : ℕ) (k : Key) (r : Option Expiry)
      → code_of (sort_key cal o now threshold k r) ≡ worse_of now threshold o (code_of r)
  unfolding sort_key
  sort_key-worst invalid now threshold k r = refl
  sort_key-worst naive now threshold k r = refl
  sort_key-worst (aware t) now threshold k none = refl
  sort_key-worst (aware t) now threshold k (some e) = sort_key-worse t now threshold k e

  sort_keys-worst :
      (now threshold : ℕ) (ks : List Key)
      → code_of (sort_keys cal now threshold ks) ≡ worst cal now threshold ks
  unfolding sort_keys
  sort_keys-worst now threshold [] = refl
  sort_keys-worst now threshold (k ∷ ks) =
      sort_key-worst (expiry_date cal k) now threshold k (sort_keys cal now threshold ks)
      ∙ ap (worse_of now threshold (expiry_date cal k)) (sort_keys-worst now threshold ks)

  -- The exit code is the worst of the keys: 2 for a date in the past, 1 for one in less than the days of the
  -- warning, and 0 for another or none, or one that cannot be read; a date without a zone is an exception.
  pub check_key_expiry_lem :
      (now warn_days : ℕ) (ks : List Key)
      → check_key_expiry cal now warn_days ks ≡ worst cal now (now + days warn_days) ks
  unfolding check_key_expiry
  check_key_expiry_lem now warn_days ks =
      let eq = sort_keys-worst now (now + days warn_days) ks in
      elim (Option-cases (sort_keys cal now (now + days warn_days) ks)) [
        | inl failed ↦ ground arith
        | inr (e, found) ↦ ground arith
      ]

  Among-rotate_key :
      (now grace_days : ℕ) (old new : String) (k : Key) (ks : List Key)
      → Among k ks
      → Among
          (rotate_one cal (now + days grace_days) old new k)
          (rotate_key cal now grace_days old new ks)
  unfolding rotate_key
  Among-rotate_key now grace_days old new k [] m = absurd m
  Among-rotate_key now grace_days old new k (j ∷ ks) (inl e) =
      inl (ap (rotate_one cal (now + days grace_days) old new) e)
  Among-rotate_key now grace_days old new k (j ∷ ks) (inr m) =
      inr (Among-rotate_key now grace_days old new k ks m)

  Among-retire_grace_keys :
      (t : ℕ) (k : Key) (ks : List Key)
      → Among k ks
      → Among (retire_one cal t k) (retire_grace_keys cal t ks)
  unfolding retire_grace_keys
  Among-retire_grace_keys t k [] m = absurd m
  Among-retire_grace_keys t k (j ∷ ks) (inl e) = inl (ap (retire_one cal t) e)
  Among-retire_grace_keys t k (j ∷ ks) (inr m) = inr (Among-retire_grace_keys t k ks m)

  -- The old key after a rotation, at a later time.
  abbrev pub outgoing : ℕ → ℕ → Key → Key
  outgoing grace_end t k =
      if ltb grace_end t
      then record k { state = some "retired"; grace_until = none }
      else record k { state = some "grace"; grace_until = some (cal.iso grace_end) }

  abbrev pub incoming : Key → Key
  incoming k = record k { state = some "active"; grace_until = none }

  outgoing_lem :
      (grace_end t : ℕ) (old new : String) (k : Key)
      → cal.parse (cal.iso grace_end) ≡ aware grace_end
      → str_eq (cal.iso grace_end) "" ≡ false
      → k.key_id ≡ some old
      → k.state ≡ some "active"
      → retire_one cal t (rotate_one cal grace_end old new k) ≡ outgoing grace_end t k
  outgoing_lem grace_end t old new k p e i s =
      let own : is_text k.key_id old ≡ true = ground (arith, eq_refl old) in
      let active : is_text k.state "active" ≡ true = ground arith in
      let rotated : rotate_one cal grace_end old new k
          ≡ record k { state = some "grace"; grace_until = some (cal.iso grace_end) } =
        rw (own, active) refl in
      ap (retire_one cal t) rotated
      ∙ rw (e, p) (elim (Bool-cases (ltb grace_end t)) [ inl y ↦ rw y refl | inr n ↦ rw n refl ])

  incoming_lem :
      (grace_end t : ℕ) (old new : String) (k : Key)
      → str_eq new old ≡ false
      → k.key_id ≡ some new
      → is_text k.state "grace" || is_text k.state "pending" ≡ true
      → retire_one cal t (rotate_one cal grace_end old new k) ≡ incoming k
  incoming_lem grace_end t old new k d i s =
      let other : is_text k.key_id old ≡ false = ground arith in
      let own : is_text k.key_id new ≡ true = ground (arith, eq_refl new) in
      let rotated : rotate_one cal grace_end old new k ≡ incoming k = rw (other, own, s) refl in
      ap (retire_one cal t) rotated

  -- After a rotation from an active key to one that waits, in grace or pending, at any later time: the new
  -- key is active, and the old one is in grace until the days of grace are over, and then retired, and
  -- both keep their secrets. The calendar reads the text of the end of the grace, with its zone.
  pub rotation_lem :
      (now t grace_days : ℕ) (old new : String) (k j : Key) (ks : List Key)
      → cal.parse (cal.iso (now + days grace_days)) ≡ aware (now + days grace_days)
      → str_eq (cal.iso (now + days grace_days)) "" ≡ false
      → str_eq new old ≡ false
      → Among k ks
      → k.key_id ≡ some old
      → k.state ≡ some "active"
      → Among j ks
      → j.key_id ≡ some new
      → is_text j.state "grace" || is_text j.state "pending" ≡ true
      → Among
          (outgoing (now + days grace_days) t k)
          (retire_grace_keys cal t (rotate_key cal now grace_days old new ks))
        × Among (incoming j) (retire_grace_keys cal t (rotate_key cal now grace_days old new ks))
  rotation_lem now t grace_days old new k j ks p e d m i s m' i' s' =
      let end = now + days grace_days in
      let kept : (c : Key)
          → Among c ks
          → Among (retire_one cal t (rotate_one cal end old new c))
              (retire_grace_keys cal t (rotate_key cal now grace_days old new ks)) =
        λ c n.
          Among-retire_grace_keys t (rotate_one cal end old new c)
            (rotate_key cal now grace_days old new ks)
            (Among-rotate_key now grace_days old new c ks n) in
      (
        subst (λ x. Among x (retire_grace_keys cal t (rotate_key cal now grace_days old new ks)))
            (outgoing_lem end t old new k p e i s) (kept k m),
        subst (λ x. Among x (retire_grace_keys cal t (rotate_key cal now grace_days old new ks)))
            (incoming_lem end t old new j d i' s') (kept j m'),
      )
