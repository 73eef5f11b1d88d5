-- ===== src/Kernel/Compose/Composed.antt =====
-- kernel/compose.py: composing layers keeps the ids of the entries distinct, and the entries that stand.
use mathlib.Core.Path.{subst}
use runspool.Prelude.{
  ℕ, suc, String, Bool, true, false, ◌≡◌, refl, sym, ◌∙◌, Option, none, some, List, [], ◌∷◌, ◌++◌,
  not, arith, if◌then◌else◌, string_eq, Bool-cases, inl, inr,
}
use runspool.Prelude.Exec.{Result, ok, err}
use runspool.Kernel.Compose.{
  Value, Entry, Layer, Composition, ComposeError, Items, Pairs, has_id, find_entry, inserted,
  insert_items, insert_listed, configured, disabled_by, modified, apply_patch, apply_patches,
  compose_onto, compose, no_id, text_of, entry_of, get, ◌>>=◌, null, flag, text, scalar, sequence,
  mapping, no_items, item, differs, is_key, is_insert, is_entry_key, only,
}
use runspool.Kernel.Compose.Distinct.{
  Distinct, Extends, append-Distinct, Extends-append, Kept, same-Kept, then-Kept, change_entry-Kept,
  merged-Kept,
}

bound :
    {A B : Type 0} (m : Result ComposeError A) (f : A → Result ComposeError B) (b : B)
    → (m >>= f) ≡ ok b
    → (a : A) × (m ≡ ok a) × (f a ≡ ok b)
bound (ok a) f b h = (a, refl, h)
bound (err e) f b h = absurd (cc)

next_ok :
    {A B : Type 0} (m : Result ComposeError A) (f : A → Result ComposeError B) (b : B)
    → elim m [ err e ↦ err e | ok a ↦ f a ] ≡ ok b
    → (a : A) × (m ≡ ok a) × (f a ≡ ok b)
next_ok (ok a) f b h = (a, refl, h)
next_ok (err e) f b h = absurd (cc)

-- What a test chooses.
either :
    {A X : Type 0} (t : Bool) (a b c : A) → (a ≡ c → X) → (b ≡ c → X) → (if t then a else b) ≡ c → X
either true a b c k l h = k h
either false a b c k l h = l h

ok_eq : {A : Type 0} (a b : A) → ◌≡◌ {A = Result ComposeError A} (ok a) (ok b) → a ≡ b
ok_eq a b h = cc

module _ (source : String) (n : ℕ) where
  inserted-Kept : (e : Entry) (es es' : List Entry) → inserted source n e es ≡ ok es' → Kept es es'
  inserted-Kept e es es' h = elim (Bool-cases (has_id e.id es)) [
    | inl twice ↦ absurd (ground arith)
    | inr fresh ↦ subst (Kept es) (ok_eq (es ++ (e ∷ [])) es' (ground arith)) (record {
      distinct = λ d. append-Distinct es e d fresh;
      extends = Extends-append es (e ∷ []);
    })
  ]

  insert_items-Kept :
      (raws : Items) (es es' : List Entry) → insert_items source n raws es ≡ ok es' → Kept es es'
  unfolding insert_items
  insert_items-Kept no_items es es' h = subst (Kept es) (ok_eq es es' h) (same-Kept es)
  insert_items-Kept (item raw rest) es es' h =
      let (more, g, k) =
        next_ok (entry_of source n raw >>= λ e. inserted source n e es) (insert_items source n rest)
          es' h in
      let (e, _, made) = bound (entry_of source n raw) (λ e. inserted source n e es) more g in
      then-Kept es more es' (inserted-Kept e es more made) (insert_items-Kept rest more es' k)

  insert_listed-Kept :
      (raws : Option Value) (c d : Composition)
      → insert_listed source n raws c ≡ ok d
      → Kept c.entries d.entries
  insert_listed-Kept (some (sequence raws)) c d h =
      let (es, made, same) =
        bound (insert_items source n raws c.entries) (λ es. ok (record c { entries = es })) d h in
      subst (λ x. Kept c.entries x.entries) (ok_eq (record c { entries = es }) d same)
        (insert_items-Kept raws c.entries es made)
  insert_listed-Kept (some null) c d h = absurd (cc)
  insert_listed-Kept (some (flag b)) c d h = absurd (cc)
  insert_listed-Kept (some (text s)) c d h = absurd (cc)
  insert_listed-Kept (some (scalar s)) c d h = absurd (cc)
  insert_listed-Kept (some (mapping ps)) c d h = absurd (cc)
  insert_listed-Kept none c d h = absurd (cc)

  configured-Kept :
      (id : String) (v : Option Value) (c : Composition)
      → Kept c.entries (configured source n id v c).entries
  configured-Kept id none c = same-Kept c.entries
  configured-Kept id (some null) c = same-Kept c.entries
  configured-Kept id (some (flag b)) c = merged-Kept id (flag b) c.entries
  configured-Kept id (some (text s)) c = merged-Kept id (text s) c.entries
  configured-Kept id (some (scalar s)) c = merged-Kept id (scalar s) c.entries
  configured-Kept id (some (sequence s)) c = merged-Kept id (sequence s) c.entries
  configured-Kept id (some (mapping s)) c = merged-Kept id (mapping s) c.entries

  disabled_by-Kept :
      (id : String) (v : Option Value) (c d : Composition)
      → disabled_by source n id v c ≡ ok d
      → Kept c.entries d.entries
  disabled_by-Kept id none c d h =
      subst (λ x. Kept c.entries x.entries) (ok_eq c d h) (same-Kept c.entries)
  disabled_by-Kept id (some (flag b)) c d h =
      subst (λ x. Kept c.entries x.entries) (ok_eq _ d h)
        (change_entry-Kept (λ e. record e { disabled = b }) (λ e. refl) (λ e. refl) id c.entries)
  disabled_by-Kept id (some null) c d h = absurd (cc)
  disabled_by-Kept id (some (text s)) c d h = absurd (cc)
  disabled_by-Kept id (some (scalar s)) c d h = absurd (cc)
  disabled_by-Kept id (some (mapping ps)) c d h = absurd (cc)
  disabled_by-Kept id (some (sequence ps)) c d h = absurd (cc)

  modified-Kept :
      (id : String) (ps : Pairs) (c d : Composition) (target : Option Entry)
      → modified source n id ps c target ≡ ok d
      → Kept c.entries d.entries
  modified-Kept id ps c d none h =
      subst (λ x. Kept c.entries x.entries) (ok_eq _ d h) (same-Kept c.entries)
  modified-Kept id ps c d (some e) h =
      either (differs e (get "plugin" ps)) _ _ (ok d)
        (λ same. subst (λ x. Kept c.entries x.entries) (ok_eq _ d same) (same-Kept c.entries))
        (λ made.
          then-Kept c.entries (configured source n id (get "config" ps) c).entries d.entries
            (configured-Kept id (get "config" ps) c)
            (disabled_by-Kept id (get "disabled" ps) _ d made))
        h

  apply_patch-Kept :
      (p : Value) (c d : Composition) → apply_patch source n p c ≡ ok d → Kept c.entries d.entries
  unfolding apply_patch
  apply_patch-Kept (mapping ps) c d h =
      either (is_key source n "insert" ps) _ _ (ok d)
        (either (only is_insert ps) _ _ (ok d) (insert_listed-Kept (get "insert" ps) c d)
          (λ e. absurd (cc)))
        (either (not (only is_entry_key ps)) _ _ (ok d) (λ e. absurd (cc))
          (λ k.
            let (id, _, made) =
              bound (text_of (no_id source n) (get "id" ps))
                (λ id. modified source n id ps c (find_entry id c.entries)) d k in
            modified-Kept id ps c d (find_entry id c.entries) made))
        h
  apply_patch-Kept null c d h = absurd (cc)
  apply_patch-Kept (flag b) c d h = absurd (cc)
  apply_patch-Kept (text s) c d h = absurd (cc)
  apply_patch-Kept (scalar s) c d h = absurd (cc)
  apply_patch-Kept (sequence s) c d h = absurd (cc)

apply_patches-Kept :
    (source : String) (n : ℕ) (ps : List Value) (c d : Composition)
    → apply_patches source n ps c ≡ ok d
    → Kept c.entries d.entries
unfolding apply_patches
apply_patches-Kept source n [] c d h =
    subst (λ x. Kept c.entries x.entries) (ok_eq c d h) (same-Kept c.entries)
apply_patches-Kept source n (p ∷ ps) c d h =
    let (e, first, rest) =
      next_ok (apply_patch source n p c) (apply_patches source (suc n) ps) d h in
    then-Kept c.entries e.entries d.entries (apply_patch-Kept source n p c e first)
      (apply_patches-Kept source (suc n) ps e d rest)

compose_onto-Kept :
    (ls : List Layer) (c d : Composition) → compose_onto ls c ≡ ok d → Kept c.entries d.entries
unfolding compose_onto
compose_onto-Kept [] c d h =
    subst (λ x. Kept c.entries x.entries) (ok_eq c d h) (same-Kept c.entries)
compose_onto-Kept (l ∷ ls) c d h =
    let (e, first, rest) = next_ok (apply_patches l.source 1 l.patches c) (compose_onto ls) d h in
    then-Kept c.entries e.entries d.entries (apply_patches-Kept l.source 1 l.patches c e first)
      (compose_onto-Kept ls e d rest)

onto-append :
    (ls ms : List Layer) (s c d : Composition)
    → compose_onto ls s ≡ ok c
    → compose_onto (ls ++ ms) s ≡ ok d
    → compose_onto ms c ≡ ok d
unfolding compose_onto
onto-append [] ms s c d h k = subst (λ x. compose_onto ms x ≡ ok d) (ok_eq s c h) k
onto-append (l ∷ ls) ms s c d h k =
    let (e, first, rest) = next_ok (apply_patches l.source 1 l.patches s) (compose_onto ls) c h in
    let (e', again, others) =
      next_ok (apply_patches l.source 1 l.patches s) (compose_onto (ls ++ ms)) d k in
    onto-append ls ms e c d rest
      (subst (λ x. compose_onto (ls ++ ms) x ≡ ok d) (ok_eq e' e (sym again ∙ first)) others)

abbrev no_entries : Composition
no_entries = record { entries = []; warnings = [] }

-- When the layers `before` compose to `c`, and with the layers `after` behind them to `d`, the entries
-- of `d` have distinct ids, and each entry of `c` stands in `d` at its place, under its id and with its
-- plugin.
pub compose-Distinct :
    (before after : List Layer) (c d : Composition)
    → compose before ≡ ok c
    → compose (before ++ after) ≡ ok d
    → Distinct d.entries × Extends c.entries d.entries
unfolding compose
compose-Distinct before after c d h k = (
  (compose_onto-Kept (before ++ after) no_entries d k).distinct tt,
  (compose_onto-Kept after c d (onto-append before after no_entries c d h k)).extends,
)
