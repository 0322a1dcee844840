-- ===== src/Judge/Server/Evaluated.antt =====
-- POST /judge of apps/judge/server.py with `slo_judge.evaluate` of apps/judge/slo_judge.py: what a
-- decision to pass rests on.
use decisionos.Common.{
  String, ◌≡◌, ◌∙◌, ap, true, Bool, Option, none, some, List, arith, inl, inr, Option-cases,
}
use decisionos.Common.Int.{ℤ}
use decisionos.Common.Dict.{lookup}
use decisionos.Judge.Keys.{Stdlib, KeyMaterial}
use decisionos.Judge.Keys.Verify.{IsSigned}
use decisionos.Judge.NonceStore.{NonceStore}
use decisionos.Judge.Server.{
  Parts, no_object, malformed, both, Request, Ambient, judged, key_or_default, Server, judge, admit,
  verify, timed, headers, post_judge,
}
use decisionos.Judge.Server.Effect.{is_judged}
use decisionos.Judge.Server.Unsigned.{judged_authorised}
use decisionos.Judge.Slo.{Verdict, pass, evaluate}
use decisionos.Judge.Slo.Schema.{SloSpec, Evidence, DriftFile, Reason}
use decisionos.Judge.Slo.Meets.Parts.{AllThere}
use decisionos.Judge.Slo.Meets.Passes.{Meets, evaluate_pass_iff}
use decisionos.Policy.Pep.{allowed}
use decisionos.Policy.Pep.Grants.{Grants}

module _ {Payload Env S Judgement : Type 0} (std : Stdlib Payload) (nonces : NonceStore Env S)
    (parts : Payload → Parts Judgement) where
  verify-judge :
      (a : Ambient Env) (payload : Payload) (sig k n : String) (t : ℤ) (s : Server S)
      (j : Judgement)
      → (verify std nonces parts a payload sig k n t s).0 ≡ judged j
      → judge std nonces parts a payload ≡ judged j
  unfolding verify admit
  verify-judge a payload sig k n t s j h = ground arith

  timed-judge :
      (a : Ambient Env) (payload : Payload) (sig k n : String) (raw : Option ℤ) (s : Server S)
      (j : Judgement)
      → (timed std nonces parts a payload sig k n raw s).0 ≡ judged j
      → judge std nonces parts a payload ≡ judged j
  unfolding timed
  timed-judge a payload sig k n none s j h = cc
  timed-judge a payload sig k n (some t) s j h =
      ground (arith, verify-judge a payload sig k n t s j)

  headers-judge :
      (a : Ambient Env) (payload : Payload) (r : Request Payload) (s : Server S) (j : Judgement)
      → (headers std nonces parts a payload r s).0 ≡ judged j
      → judge std nonces parts a payload ≡ judged j
  unfolding headers
  headers-judge a payload r s j h = elim (Option-cases r.signature) [
    | inl e ↦ absurd (ground arith)
    | inr (sig, e) ↦ elim (Option-cases r.nonce) [
      | inl f ↦ absurd (ground arith)
      | inr (n, f) ↦ elim (Option-cases r.ts_epoch) [
        | inl g ↦ absurd (ground arith)
        | inr (raw, g) ↦
            ground (arith, timed-judge a payload sig (key_or_default r.key_id) n raw s j)
      ]
    ]
  ]

  judge-parts :
      (a : Ambient Env) (payload : Payload) (j : Judgement)
      → judge std nonces parts a payload ≡ judged j
      → parts payload ≡ both (some j)
  unfolding judge
  judge-parts a payload j h = ground arith

  judged-parts :
      (a : Ambient Env) (r : Request Payload) (s : Server S) (j : Judgement)
      → (post_judge std nonces parts a r s).0 ≡ judged j
      → (payload : Payload) × (r.payload ≡ some payload) × (parts payload ≡ both (some j))
  unfolding post_judge
  judged-parts a r s j h = elim (Option-cases r.payload) [
    | inl e ↦ absurd (ground arith)
    | inr (payload, e) ↦
        (payload, e, judge-parts a payload j (headers-judge a payload r s j (ground arith)))
  ]

-- What `payload.get` finds: no object at all, evidence or SLO that is no object, or both.
pub data Found (Raw : Type 0) : Type 0 where
  nothing other : Found Raw
  evidence_and_slo : Evidence Raw → Option SloSpec → Found Raw

module _ {Payload Raw : Type 0} (digest : List (String × Raw) → String) (is_null : Raw → Bool)
    (drift_file : String → DriftFile) (find : Payload → Found Raw) where
  -- The parts of a payload with the judgement of `slo_judge.evaluate`.
  abbrev pub slo_parts : Payload → Parts (Verdict × List Reason)
  slo_parts payload = elim (find payload) [
    | nothing ↦ no_object
    | other ↦ malformed
    | evidence_and_slo ev slo ↦ both (some (evaluate digest is_null drift_file ev slo))
  ]

  slo_parts-evaluate :
      (payload : Payload) (j : Verdict × List Reason)
      → slo_parts payload ≡ both (some j)
      → (ev : Evidence Raw) × (slo : Option SloSpec) × (find payload ≡ evidence_and_slo ev slo)
        × (evaluate digest is_null drift_file ev slo ≡ j)
  slo_parts-evaluate payload j h = ground arith

module _ {Payload Env S Raw : Type 0} (std : Stdlib Payload) (nonces : NonceStore Env S)
    (digest : List (String × Raw) → String) (is_null : Raw → Bool) (drift_file : String → DriftFile)
    (find : Payload → Found Raw) where
  -- POST /judge decides "pass" only for a payload whose signature is good under a loaded key that is
  -- not retired and that the request names, where DECISIONOS_ALLOW_SCOPES grants `judge:run`, and
  -- whose evidence has all the required blocks and meets the SLO that the payload carries.
  pub pass_authorised :
      (a : Ambient Env) (r : Request Payload) (s : Server S) (reasons : List Reason)
      → (post_judge std nonces (slo_parts digest is_null drift_file find) a r s).0
        ≡ judged (pass, reasons)
      → (payload : Payload) × (sig : String) × (km : KeyMaterial) × (ev : Evidence Raw)
        × (spec : SloSpec) × (r.payload ≡ some payload)
        × (r.signature ≡ some sig)
        × (lookup
              (key_or_default r.key_id)
              (post_judge std nonces (slo_parts digest is_null drift_file find) a r s).1.keys.keys
            ≡ some km)
        × IsSigned std payload sig true km
        × Grants "judge:run" (allowed a.scopes)
        × (find payload ≡ evidence_and_slo ev (some spec))
        × AllThere ev.blocks
        × Meets digest is_null drift_file spec ev
  pass_authorised a r s reasons h =
      let (payload, sig, km, ep, es, known, signed, granted) =
        judged_authorised std nonces (slo_parts digest is_null drift_file find) a r s
          (ap is_judged h) in
      let (payload', ep', e) =
        judged-parts std nonces (slo_parts digest is_null drift_file find) a r s (pass, reasons)
          h in
      let (ev, slo, found, judgement) =
        slo_parts-evaluate digest is_null drift_file find payload' (pass, reasons) e in
      let (spec, es', there, meets) =
        (evaluate_pass_iff digest is_null drift_file ev slo).0 (ap (λ j. j.0) judgement) in
      let same : payload' ≡ payload = ground arith in
      (
        payload,
        sig,
        km,
        ev,
        spec,
        ep,
        es,
        known,
        signed,
        granted,
        rw (← same) (found ∙ ap (evidence_and_slo ev) es'),
        there,
        meets,
      )
