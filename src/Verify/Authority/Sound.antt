-- ===== src/Verify/Authority/Sound.antt =====
-- Every bound receipt of a clean bundle keeps to the grant that it names.
use continuity_receipt.Base.{
  ◌&&◌, Bool, true, false, not, ◌≡◌, List, [], ◌∷◌, All, String, arith, sym, ap, ◌∙◌,
}
use continuity_receipt.Value.{Value, str, dict, Fields, get}
use continuity_receipt.Value.Equal.{py_eq, py_eq-str}
use continuity_receipt.Crypto.{Crypto}
use continuity_receipt.Records.{spec_06}
use continuity_receipt.Records.Timestamp.{NotBefore, NotBefore-is_before, is_before}
use continuity_receipt.Verify.Report.Grade.{
  fatal_free, fatal_free_parts, fatal_free-append, fatal_free-fatal_if,
}
use continuity_receipt.Verify.Resolve.{Table, issuer_id, resolved, resolve, referenced_by, table_of}
use continuity_receipt.Verify.Authority.{
  effective_from, is_other_agent, check_window, check_grant_body, check_bound_grant,
  check_resolution, check_granted, check_authority, check_unused,
}

-- The receipt keeps to the grant: it is not issued before the grant takes effect nor after it
-- expires, and its issuer is the agent.
pub record KeepsTo (receipt grant grant_body : Fields) : Type 0 where
  pub started :
      NotBefore
        (get receipt "issued_at")
        (effective_from (get grant_body "granted_at") (get grant "issued_at"))
  pub unexpired : NotBefore (get grant_body "expires_at") (get receipt "issued_at")
  pub by_agent :
      (agent : String) → get grant_body "agent" ≡ str agent → issuer_id receipt ≡ str agent

agent_is_issuer :
    (issuer v : Value) (agent : String)
    → is_other_agent v issuer ≡ false
    → v ≡ str agent
    → issuer ≡ str agent
agent_is_issuer issuer v agent h e =
    let here : not (py_eq issuer (str agent)) ≡ false =
      sym (ap (λ w. is_other_agent w issuer) e) ∙ h in
    py_eq-str issuer agent (ground arith)

three_false :
    (a b c : Bool) → ((not a && not b) && not c) ≡ true → (a ≡ false) × (b ≡ false) × (c ≡ false)
three_false a b c h = ground arith

KeepsTo-check_window :
    (receipt grant grant_body : Fields)
    → fatal_free (check_window receipt grant grant_body) ≡ true
    → KeepsTo receipt grant grant_body
unfolding check_window
KeepsTo-check_window receipt grant grant_body free =
    let effective = effective_from (get grant_body "granted_at") (get grant "issued_at") in
    let (early, other, late) =
      three_false (is_before (get receipt "issued_at") effective)
        (is_other_agent (get grant_body "agent") (issuer_id receipt))
        (is_before (get grant_body "expires_at") (get receipt "issued_at"))
        (simp (fatal_free-append, fatal_free-fatal_if) at free) in
    record {
      started = NotBefore-is_before (get receipt "issued_at") effective early;
      unexpired = NotBefore-is_before (get grant_body "expires_at") (get receipt "issued_at") late;
      by_agent =
          λ agent e. agent_is_issuer (issuer_id receipt) (get grant_body "agent") agent other e;
    }

-- The receipt's reference resolves to no grant of another window or agent.
abbrev pub IsAuthorized : Table → Fields → Type 0
IsAuthorized grants receipt =
    (ref : String) (grant grant_body : Fields)
    → resolve (spec_06 ∷ []) "authority_ref" grants receipt ≡ resolved ref grant
    → get grant "body" ≡ dict grant_body
    → KeepsTo receipt grant grant_body

IsAuthorized-check_resolution :
    (grants : Table) (receipt : Fields)
    → fatal_free (check_resolution (resolve (spec_06 ∷ []) "authority_ref" grants receipt) receipt)
      ≡ true
    → IsAuthorized grants receipt
unfolding check_bound_grant
IsAuthorized-check_resolution grants receipt free ref grant grant_body e has_body =
    KeepsTo-check_window receipt grant grant_body (
      sym (
        ap (λ r. fatal_free (check_resolution r receipt)) e
        ∙ ap (λ v. fatal_free (check_grant_body v receipt grant)) has_body)
      ∙ free)

IsAuthorized-check_granted :
    (grants : Table) (dicts : List Fields)
    → fatal_free (check_granted grants dicts) ≡ true
    → All (IsAuthorized grants) dicts
unfolding check_granted
IsAuthorized-check_granted grants [] free = tt
IsAuthorized-check_granted grants (d ∷ ds) free =
    let (first, rest) =
      fatal_free_parts (check_resolution (resolve (spec_06 ∷ []) "authority_ref" grants d) d)
        (check_granted grants ds) free in
    (IsAuthorized-check_resolution grants d first, IsAuthorized-check_granted grants ds rest)

-- In a clean bundle every bound receipt keeps to the grant that it names.
pub IsAuthorized-check_authority :
    (c : Crypto) (dicts : List Fields)
    → fatal_free (check_authority c dicts) ≡ true
    → All (IsAuthorized (table_of c "authority.grant" [] dicts)) dicts
unfolding check_authority
IsAuthorized-check_authority c dicts free =
    let grants = table_of c "authority.grant" [] dicts in
    let used = referenced_by (spec_06 ∷ []) "authority_ref" grants dicts in
    IsAuthorized-check_granted grants dicts
      (fatal_free_parts (check_granted grants dicts) (check_unused used grants) free).0
