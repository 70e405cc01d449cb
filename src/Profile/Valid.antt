-- ===== src/Profile/Valid.antt =====
-- The profiles that `validate_profile` accepts.
use mathlib.Core.List.{Perm}
use mathlib.Core.Path.{subst}
use continuity_receipt.Base.{
  ℕ, String, Bool, true, false, not, ◌&&◌, Option, none, some, List, [], ◌∷◌, ◌≡◌, ◌≢◌, refl,
  if◌then◌else◌, ◌>>=◌, All, &&_true,
}
use continuity_receipt.Value.{Value, null, bool, int, float, str, list, dict, Fields, get, is_text}
use continuity_receipt.Value.Equal.{is_text-eq}
use continuity_receipt.Crypto.{Crypto}
use continuity_receipt.Canon.{canonical_bytes, sha256_prefixed}
use continuity_receipt.Witness.{Result, done, raises}
use continuity_receipt.Checkpoint.Statement.{first_reason}
use continuity_receipt.Checkpoint.Current.{first_reason-none, holds}
use continuity_receipt.Profile.{
  Profile, Paths, text_list, path_valid, all_texts_are, no_repeat, nonempty, chosen_from,
  inventory_fits, read_paths, sort_texts, head_tests, export_fits, as_fields, checked, trust_fits,
  custody_tests, returned, with_paths, validate_profile,
}
use continuity_receipt.Profile.Sound.{
  IsBelow, AllDiffer, IsChosen, IsBelow-path_valid, All-all_texts_are, AllDiffer-no_repeat,
  IsChosen-chosen_from, Perm-sort_texts,
}

-- The lists of an export: an inventory of paths that stay below their directory, which differ, and
-- paths chosen from it.
pub record IsExport (e : Fields) (paths : Paths) : Type 0 where
  pub inventory_is : text_list (get e "inventory") ≡ some paths.inventory
  pub optional_is : text_list (get e "optional") ≡ some paths.optional
  pub memory_is : text_list (get e "memory_paths") ≡ some paths.memory_paths
  pub is_filled : paths.inventory ≢ []
  pub below : All IsBelow paths.inventory
  pub differ : AllDiffer paths.inventory
  pub optional : IsChosen paths.inventory paths.optional
  pub recalled : paths.memory_paths ≢ []
  pub memory : IsChosen paths.inventory paths.memory_paths

filled : (ss : List String) → nonempty ss ≡ true → ss ≢ []
filled [] h = cc
filled (s ∷ ss) h = λ e. cc e

IsExport-fits :
    (e : Fields) (i o m : List String)
    → text_list (get e "inventory") ≡ some i
    → text_list (get e "optional") ≡ some o
    → text_list (get e "memory_paths") ≡ some m
    → inventory_fits i o m ≡ true
    → IsExport e (record { inventory = i; optional = o; memory_paths = m })
IsExport-fits e i o m ei eo em h =
    let (own, chosen) =
      (&&_true (nonempty i && (all_texts_are path_valid i && no_repeat i))
          (chosen_from i o && (nonempty m && chosen_from i m))).0
        h in
    let (some_path, valid) =
      (&&_true (nonempty i) (all_texts_are path_valid i && no_repeat i)).0 own in
    let (below, differ) = (&&_true (all_texts_are path_valid i) (no_repeat i)).0 valid in
    let (optional, memory) = (&&_true (chosen_from i o) (nonempty m && chosen_from i m)).0 chosen in
    let (some_memory, from) = (&&_true (nonempty m) (chosen_from i m)).0 memory in
    record {
      inventory_is = ei;
      optional_is = eo;
      memory_is = em;
      is_filled = filled i some_path;
      below = All-all_texts_are path_valid i IsBelow-path_valid below;
      differ = AllDiffer-no_repeat i differ;
      optional = IsChosen-chosen_from i o optional;
      recalled = filled m some_memory;
      memory = IsChosen-chosen_from i m from;
    }

IsExport-read_paths : (e : Fields) (paths : Paths) → read_paths e ≡ some paths → IsExport e paths
unfolding read_paths
IsExport-read_paths e paths =
    go (text_list (get e "inventory")) (text_list (get e "optional"))
      (text_list (get e "memory_paths")) refl refl refl
  where
    finish :
        (i o m : List String) (b : Bool)
        → text_list (get e "inventory") ≡ some i
        → text_list (get e "optional") ≡ some o
        → text_list (get e "memory_paths") ≡ some m
        → inventory_fits i o m ≡ b
        → (if b then some (record { inventory = i; optional = o; memory_paths = m }) else none)
          ≡ some paths
        → IsExport e paths
    finish i o m false ei eo em f k = cc
    finish i o m true ei eo em f k =
        let same : record { inventory = i; optional = o; memory_paths = m } ≡ paths = cc k in
        subst (IsExport e) same (IsExport-fits e i o m ei eo em f)

    go :
        (i o m : Option (List String))
        → text_list (get e "inventory") ≡ i
        → text_list (get e "optional") ≡ o
        → text_list (get e "memory_paths") ≡ m
        → (i >>= λ inventory. o >>= λ optional. m >>= λ memory_paths.
            if inventory_fits inventory optional memory_paths
            then some
                (record { inventory = inventory; optional = optional; memory_paths = memory_paths })
            else none)
          ≡ some paths
        → IsExport e paths
    go none o m ei eo em k = cc
    go (some i) none m ei eo em k = cc
    go (some i) (some o) none ei eo em k = cc
    go (some i) (some o) (some m) ei eo em k = finish i o m (inventory_fits i o m) ei eo em refl k

checked_done :
    {A : Type 0} (o : Option String) (a : Result A) (x : A)
    → checked o a ≡ done x
    → (o ≡ none) × (a ≡ done x)
checked_done none a x h = (refl, h)
checked_done (some reason) a x h = cc

module _ (c : Crypto) (context scope : String) (public_key : List ℕ) where
  -- The trust of a profile names the context and the digest of the public key.
  pub record IsPinned (t : Value) : Type 0 where
    pub members : Fields
    pub is_object : t ≡ dict members
    pub context_is : get members "context" ≡ str context
    pub key_is : get members "key_sha256" ≡ str (sha256_prefixed c public_key)

  IsPinned-trust_fits : (t : Value) → trust_fits c context scope public_key t ≡ true → IsPinned t
  unfolding trust_fits
  IsPinned-trust_fits (dict t) h =
      let (_, rest) = (&&_true _ _).0 h in
      let (pins, _) = (&&_true _ _).0 rest in
      let (same_context, same_key) =
        (&&_true (is_text (get t "context") context)
            (is_text (get t "key_sha256") (sha256_prefixed c public_key))).0
          pins in
      record {
        members = t;
        is_object = refl;
        context_is = is_text-eq (get t "context") context same_context;
        key_is = is_text-eq (get t "key_sha256") (sha256_prefixed c public_key) same_key;
      }
  IsPinned-trust_fits null h = cc
  IsPinned-trust_fits (bool b) h = cc
  IsPinned-trust_fits (int z) h = cc
  IsPinned-trust_fits (float f) h = cc
  IsPinned-trust_fits (str s) h = cc
  IsPinned-trust_fits (list vs) h = cc

  -- A profile and its summary.
  pub record IsProfile (v : Value) (p : Profile) : Type 0 where
    pub members : Fields
    pub is_object : v ≡ dict members
    pub paths : Paths
    pub listed : IsExport (as_fields (get members "export")) paths
    pub scope_is : get (as_fields (get members "export")) "scope" ≡ str scope
    pub pinned : IsPinned (get members "trust")
    pub bytes : List ℕ
    pub encoded : canonical_bytes (dict members) ≡ some bytes
    pub digest_is : p.digest ≡ sha256_prefixed c bytes
    pub inventory_is : Perm p.inventory paths.inventory
    pub memory_is : p.memory_paths ≡ paths.memory_paths

  IsProfile-returned :
      (m : Fields) (paths : Paths) (p : Profile) (o : Option (List ℕ))
      → canonical_bytes (dict m) ≡ o
      → returned c context scope public_key m paths o ≡ done p
      → IsExport (as_fields (get m "export")) paths
      → get (as_fields (get m "export")) "scope" ≡ str scope
      → IsPinned (get m "trust")
      → IsProfile (dict m) p
  IsProfile-returned m paths p none e h listed in_scope pinned = cc
  IsProfile-returned m paths p (some bytes) e h listed in_scope pinned =
      let made : Profile = record {
        id = get m "id";
        digest = sha256_prefixed c bytes;
        inventory = sort_texts paths.inventory;
        optional = sort_texts paths.optional;
        memory_paths = paths.memory_paths;
      } in
      let same : made ≡ p = cc h in
      subst (IsProfile (dict m)) same (record {
        members = m;
        is_object = refl;
        paths = paths;
        listed = listed;
        scope_is = in_scope;
        pinned = pinned;
        bytes = bytes;
        encoded = e;
        digest_is = refl;
        inventory_is = Perm-sort_texts paths.inventory;
        memory_is = refl;
      })

  IsProfile-with_paths :
      (m : Fields) (o : Option Paths) (p : Profile)
      → read_paths (as_fields (get m "export")) ≡ o
      → with_paths c context scope public_key m o ≡ done p
      → get (as_fields (get m "export")) "scope" ≡ str scope
      → IsProfile (dict m) p
  unfolding with_paths
  IsProfile-with_paths m none p e h in_scope = cc
  IsProfile-with_paths m (some paths) p e h in_scope =
      let tests =
        (
          not (trust_fits c context scope public_key (get m "trust")),
          "receiver_profile_trust_invalid",
        )
        ∷ custody_tests m in
      let (passed, built) =
        checked_done (first_reason tests)
          (returned c context scope public_key m paths (canonical_bytes (dict m))) p h in
      IsProfile-returned m paths p (canonical_bytes (dict m)) refl built
        (IsExport-read_paths (as_fields (get m "export")) paths e) in_scope
        (IsPinned-trust_fits (get m "trust") (holds _ (first_reason-none tests passed).0))

  export_scope : (v : Value) → export_fits v scope ≡ true → get (as_fields v) "scope" ≡ str scope
  unfolding export_fits
  export_scope (dict e) h = is_text-eq (get e "scope") scope ((&&_true _ _).0 h).1
  export_scope null h = cc
  export_scope (bool b) h = cc
  export_scope (int z) h = cc
  export_scope (float f) h = cc
  export_scope (str s) h = cc
  export_scope (list vs) h = cc

  if_raises :
      (b : Bool) (code : String) (a : Result Profile) (p : Profile)
      → (if b then raises code else a) ≡ done p
      → (b ≡ false) × (a ≡ done p)
  if_raises true code a p h = cc
  if_raises false code a p h = (refl, h)

  -- `validate_profile` returns a summary only of an object whose export has the given scope and lists
  -- paths that stay below the directory that they start in and differ, with the optional and the
  -- memory paths among them; whose trust names the given context and the digest of the given key; and
  -- the summary has the digest of the object, its inventory in another order, and its memory paths.
  pub validate_profile-IsProfile :
      (v : Value) (p : Profile)
      → validate_profile c context scope public_key v ≡ done p
      → IsProfile v p
  unfolding validate_profile
  validate_profile-IsProfile (dict m) p h =
      let paths = read_paths (as_fields (get m "export")) in
      let listed = with_paths c context scope public_key m paths in
      let (_, rest) =
        checked_done (first_reason (head_tests m))
          (if not (export_fits (get m "export") scope)
            then raises "receiver_profile_export_invalid"
            else listed)
          p h in
      let (fits, valid) =
        if_raises (not (export_fits (get m "export") scope)) "receiver_profile_export_invalid"
          listed p rest in
      IsProfile-with_paths m paths p refl valid (export_scope (get m "export") (holds _ fits))
  validate_profile-IsProfile null p h = cc
  validate_profile-IsProfile (bool b) p h = cc
  validate_profile-IsProfile (int z) p h = cc
  validate_profile-IsProfile (float f) p h = cc
  validate_profile-IsProfile (str s) p h = cc
  validate_profile-IsProfile (list vs) p h = cc
