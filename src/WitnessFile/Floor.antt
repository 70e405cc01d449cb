-- ===== src/WitnessFile/Floor.antt =====
-- The witness file never falls back or forks, whatever is committed.
use continuity_receipt.Base.{
  String, Bool, true, false, not, ◌&&◌, ◌||◌, ◌==◌, Option, none, some, ltb, str_eq, eq_iff,
  if◌then◌else◌, ◌≡◌, refl, sym, ap, ◌∙◌, inl, inr, arith,
}
use continuity_receipt.Value.{null, dict}
use continuity_receipt.Witness.{
  Result, done, raises, OffHostWitness, from_dict, differs_from, verify_at, trusted,
}
use continuity_receipt.Witness.Follows.{
  Follows, Follows-refl, Follows-trans, verify_at-Follows, not_below,
}
use continuity_receipt.WitnessFile.{
  WitnessFile, holds, Reference, existing, data_of, drift, commit, present,
}

pub not_either :
    (a b : Bool) (x y : String)
    → (if a then some x else if b then some y else none) ≡ none
    → (a ≡ false) × (b ≡ false)
not_either true b x y h = cc
not_either false true x y h = cc
not_either false false x y h = (refl, refl)

alike : (a b d : Bool) → a ≡ true → (a && (not b || d)) ≡ false → (b ≡ true) × (d ≡ false)
alike a b d h k = (ground arith, ground arith)

Follows-drift : (w v : OffHostWitness) → drift (some w) v ≡ none → Follows w v
unfolding drift
Follows-drift w v h =
    let same_number = w.min_sequence == v.min_sequence in
    let same_checkpoint = str_eq w.latest_checkpoint v.latest_checkpoint in
    let differ = differs_from w.generation_id v.generation_id in
    let (above, fit) =
      not_either (ltb v.min_sequence w.min_sequence)
        (same_number && (not same_checkpoint || differ)) _ _ h in
    elim (not_below w.min_sequence v.min_sequence above) [
      | inl higher ↦ inl higher
      | inr level ↦
          let (checkpoint, generation) =
            alike same_number same_checkpoint differ (ground arith) fit in
          inr (level, (eq_iff w.latest_checkpoint v.latest_checkpoint).0 checkpoint, generation)
    ]

pub drift-Follows : (w v : OffHostWitness) → Follows w v → drift (some w) v ≡ none
unfolding drift
drift-Follows w v (inl h) = ground arith
drift-Follows w v (inr (n, c, g)) =
    ground (arith, eq_iff w.latest_checkpoint v.latest_checkpoint, n, c, g)

-- A commit that succeeds.
pub data Commits (file : WitnessFile) (after : WitnessFile) : Type 0 where
  commits : (r : Reference) → commit file r ≡ done after → Commits file after

-- Any number of commits that succeed, one after another.
pub data Reaches (file : WitnessFile) : WitnessFile → Type 0 where
  here : Reaches file file
  next : {g h : WitnessFile} → Reaches file g → Commits g h → Reaches file h

-- The file holds the witness.
abbrev pub Holds : WitnessFile → OffHostWitness → Type 0
Holds file w = existing file ≡ done (some w)

-- What a commit that succeeds has found and written.
pub record IsCommitted (file : WitnessFile) (r : Reference) (after : WitnessFile) : Type 0 where
  pub incoming : OffHostWitness
  pub made : from_dict (dict (data_of r)) null ≡ done incoming
  pub before : Option OffHostWitness
  pub found : existing file ≡ done before
  pub fits : drift before incoming ≡ none
  pub written : after ≡ holds (dict (data_of r))

IsCommitted-commit : (f g : WitnessFile) (r : Reference) → commit f r ≡ done g → IsCommitted f r g
unfolding commit
IsCommitted-commit f g r = go (from_dict (dict (data_of r)) null) (existing f) refl refl
  where
    finish :
        (v : OffHostWitness) (w : Option OffHostWitness) (o : Option String)
        → from_dict (dict (data_of r)) null ≡ done v
        → existing f ≡ done w
        → drift w v ≡ o
        → elim o [ some code ↦ raises code | none ↦ done (holds (dict (data_of r))) ] ≡ done g
        → IsCommitted f r g
    finish v w (some code) made found fits e = cc
    finish v w none made found fits e = record {
      incoming = v;
      made = made;
      before = w;
      found = found;
      fits = fits;
      written = cc e;
    }

    go :
        (a : Result OffHostWitness) (b : Result (Option OffHostWitness))
        → from_dict (dict (data_of r)) null ≡ a
        → existing f ≡ b
        → elim a [
          | raises code ↦ raises code
          | done v ↦ elim b [
            | raises code ↦ raises code
            | done w ↦ elim (drift w v) [
              | some code ↦ raises code
              | none ↦ done (holds (dict (data_of r)))
            ]
          ]
        ]
          ≡ done g
        → IsCommitted f r g
    go (raises code) b made found e = cc
    go (done v) (raises code) made found e = cc
    go (done v) (done w) made found e = finish v w (drift w v) made found refl e

Holds-IsCommitted : (f g : WitnessFile) (r : Reference) (m : IsCommitted f r g) → Holds g m.incoming
unfolding existing
Holds-IsCommitted f g r m = ap existing m.written ∙ ap present m.made

Commits-Follows :
    (f g : WitnessFile) (w : OffHostWitness)
    → Holds f w
    → Commits f g
    → (v : OffHostWitness) × Holds g v × Follows w v
Commits-Follows f g w held (commits r e) =
    let m = IsCommitted-commit f g r e in
    let same : m.before ≡ some w = cc (m.found, held) in
    (
      m.incoming,
      Holds-IsCommitted f g r m,
      Follows-drift w m.incoming (sym (ap (λ o. drift o m.incoming) same) ∙ m.fits),
    )

Reaches-Follows :
    (f g : WitnessFile) (w : OffHostWitness)
    → Holds f w
    → Reaches f g
    → (v : OffHostWitness) × Holds g v × Follows w v
Reaches-Follows f _ w held here = (w, held, Follows-refl w)
Reaches-Follows f h w held (next {g} path step) =
    let (v, held', follows) = Reaches-Follows f g w held path in
    let (u, held'', follows') = Commits-Follows g h v held' step in
    (u, held'', Follows-trans w v u follows follows')

-- Whatever is committed to a file that holds a witness, the file holds a witness, and the first one
-- trusts its sequence, checkpoint and generation.
pub Reaches-verify_at :
    (f g : WitnessFile) (w : OffHostWitness)
    → Holds f w
    → Reaches f g
    → (v : OffHostWitness) × Holds g v
      × (verify_at w v.min_sequence v.latest_checkpoint v.generation_id ≡ trusted)
Reaches-verify_at f g w held path =
    let (v, held', follows) = Reaches-Follows f g w held path in
    (v, held', verify_at-Follows w v follows)
