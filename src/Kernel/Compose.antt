-- ===== src/Kernel/Compose.antt =====
-- kernel/compose.py: the plugin entries that layers of patches build. A YAML value is a `Value`, whose
-- mappings have texts as keys; errors and warnings are the parts that their texts are made of.
pub mod Distinct
pub mod Composed
use runspool.Prelude.{
  ℕ, suc, String, Bool, true, false, ◌||◌, ◌&&◌, not, Option, none, some, List, [], ◌∷◌, ◌++◌,
  if◌then◌else◌, ◌==◌, string_eq,
}
use runspool.Prelude.Exec.{Result, ok, err}

mutual
  pub data Value : Type 0 where
    null : Value
    flag : Bool → Value
    text : String → Value
    -- a number or a date, as it is written
    scalar : String → Value
    sequence : Items → Value
    mapping : Pairs → Value

  pub data Items : Type 0 where
    no_items : Items
    item : Value → Items → Items

  -- In the order of the mapping.
  pub data Pairs : Type 0 where
    no_pairs : Pairs
    pair : String → Value → Pairs → Pairs

-- `class Entry`.
pub record Entry : Type 0 where
  pub id : String
  pub plugin : String
  pub config : Value
  pub disabled : Bool

-- `class Layer`.
pub record Layer : Type 0 where
  pub source : String
  pub patches : List Value

-- Where a patch stands: the source of its layer, and its number.
pub data Warning : Type 0 where
  no_entry : String → ℕ → String → Warning
  other_plugin : String → ℕ → String → Warning
  null_config : String → ℕ → String → Warning

-- `ComposeError`.
pub data ComposeError : Type 0 where
  not_mapping insert_with_keys unknown_keys no_id no_plugin not_list not_flag :
      String → ℕ → ComposeError
  defined_twice : String → ℕ → String → ComposeError

-- `mapping.get(key)`, and `mapping[key] = value`.
unfoldable pub get : String → Pairs → Option Value
get key no_pairs = none
get key (pair k v rest) = if k == key then some v else get key rest

unfoldable pub put : String → Value → Pairs → Pairs
put key value no_pairs = pair key value no_pairs
put key value (pair k v rest) =
    if k == key then pair k value rest else pair k v (put key value rest)

abbrev or_null : Option Value → Value
or_null none = null
or_null (some v) = v

-- `deep_merge`; merging what is missing is merging `None`.
unfoldable mutual
  unfolding get put

  pub deep_merge : Value → Value → Value
  deep_merge (mapping base) (mapping pairs) = mapping (merge_pairs base pairs)
  deep_merge base override = override

  pub merge_pairs : Pairs → Pairs → Pairs
  merge_pairs merged no_pairs = merged
  merge_pairs merged (pair key value rest) =
      merge_pairs (put key (deep_merge (or_null (get key merged)) value) merged) rest

abbrev pub only : (String → Bool) → Pairs → Bool
only allowed no_pairs = true
only allowed (pair key v rest) = allowed key && only allowed rest

-- `_ENTRY_KEYS` and `_MODIFY_KEYS`.
abbrev pub is_entry_key : String → Bool
is_entry_key key = key == "id" || key == "plugin" || key == "config" || key == "disabled"

abbrev pub is_insert : String → Bool
is_insert key = key == "insert"

abbrev nonempty : ComposeError → String → Result ComposeError String
nonempty e s = if s == "" then err e else ok s

-- A text that is not empty.
abbrev pub text_of : ComposeError → Option Value → Result ComposeError String
text_of e (some (text s)) = nonempty e s
text_of e _ = err e

-- `_flag`; `none` is a key that is missing.
abbrev pub flag_of : ComposeError → Bool → Option Value → Result ComposeError Bool
flag_of e default none = ok default
flag_of e default (some (flag b)) = ok b
flag_of e default (some _) = err e

infixl 10 ◌>>=◌
abbrev pub ◌>>=◌ :
    {A B : Type 0} → Result ComposeError A → (A → Result ComposeError B) → Result ComposeError B
ok a >>= f = f a
err e >>= f = err e

module _ (source : String) (number : ℕ) where
  abbrev pub entry_from : Pairs → Result ComposeError Entry
  entry_from ps = do
    id ← text_of (no_id source number) (get "id" ps)
    plugin ← text_of (no_plugin source number) (get "plugin" ps)
    disabled ← flag_of (not_flag source number) false (get "disabled" ps)
    ok (record {
      id = id;
      plugin = plugin;
      config = or_null (get "config" ps);
      disabled = disabled;
    })

  -- `_entry`.
  unfoldable pub entry_of : Value → Result ComposeError Entry
  unfolding get
  entry_of (mapping ps) =
      if not (only is_entry_key ps) then err (unknown_keys source number) else entry_from ps
  entry_of _ = err (not_mapping source number)

-- `entry_id in index`.
abbrev pub has_id : String → List Entry → Bool
has_id id [] = false
has_id id (e ∷ es) = e.id == id || has_id id es

-- `index.get(entry_id)`, of entries with distinct ids.
unfoldable pub find_entry : String → List Entry → Option Entry
find_entry id [] = none
find_entry id (e ∷ es) = if e.id == id then some e else find_entry id es

unfoldable pub change_entry : String → (Entry → Entry) → List Entry → List Entry
change_entry id f [] = []
change_entry id f (e ∷ es) = if e.id == id then f e ∷ es else e ∷ change_entry id f es

-- What applying patches changes.
pub record Composition : Type 0 where
  pub entries : List Entry
  pub warnings : List Warning

abbrev warn : Warning → Composition → Composition
warn w c = record c { warnings = c.warnings ++ (w ∷ []) }

abbrev pub differs : Entry → Option Value → Bool
differs target none = false
differs target (some (text plugin)) = not (plugin == target.plugin)
differs target (some _) = true

module _ (source : String) (number : ℕ) where
  abbrev pub inserted : Entry → List Entry → Result ComposeError (List Entry)
  inserted e es =
      if has_id e.id es then err (defined_twice source number e.id) else ok (es ++ (e ∷ []))

  -- `for raw in _as_list(patch["insert"], where)`.
  unfoldable pub insert_items : Items → List Entry → Result ComposeError (List Entry)
  unfolding entry_of
  insert_items no_items es = ok es
  insert_items (item raw rest) es = elim (entry_of source number raw >>= λ e. inserted e es) [
    | err e ↦ err e
    | ok more ↦ insert_items rest more
  ]

  abbrev pub insert_listed : Option Value → Composition → Result ComposeError Composition
  insert_listed (some (sequence raws)) c =
      insert_items raws c.entries >>= λ es. ok (record c { entries = es })
  insert_listed _ c = err (not_list source number)

  -- The `config` of a modify patch.
  abbrev pub configured : String → Option Value → Composition → Composition
  configured id none c = c
  configured id (some null) c = warn (null_config source number id) c
  configured id (some v) c = record c {
    entries = change_entry id (λ e. record e { config = deep_merge e.config v }) c.entries;
  }

  -- Its `disabled`.
  abbrev pub disabled_by : String → Option Value → Composition → Result ComposeError Composition
  disabled_by id none c = ok c
  disabled_by id (some (flag b)) c =
      ok (record c { entries = change_entry id (λ e. record e { disabled = b }) c.entries })
  disabled_by id (some _) c = err (not_flag source number)

  -- A modify patch, once its entry has been looked up.
  abbrev pub modified :
      String → Pairs → Composition → Option Entry → Result ComposeError Composition
  modified id ps c none = ok (warn (no_entry source number id) c)
  modified id ps c (some target) =
      if differs target (get "plugin" ps)
      then ok (warn (other_plugin source number id) c)
      else disabled_by id (get "disabled" ps) (configured id (get "config" ps) c)

  abbrev pub is_key : String → Pairs → Bool
  is_key key ps = elim (get key ps) [ none ↦ false | some _ ↦ true ]

  -- The body of `apply_patches`'s loop.
  unfoldable pub apply_patch : Value → Composition → Result ComposeError Composition
  unfolding get find_entry change_entry insert_items deep_merge
  apply_patch (mapping ps) c =
      if is_key "insert" ps
      then if only is_insert ps
        then insert_listed (get "insert" ps) c
        else err (insert_with_keys source number)
      else if not (only is_entry_key ps)
      then err (unknown_keys source number)
      else text_of (no_id source number) (get "id" ps) >>= λ id.
          modified id ps c (find_entry id c.entries)
  apply_patch _ c = err (not_mapping source number)

-- `apply_patches`, from the n-th patch on.
unfoldable pub apply_patches :
    String → ℕ → List Value → Composition → Result ComposeError Composition
unfolding apply_patch
apply_patches source n [] c = ok c
apply_patches source n (p ∷ ps) c = elim (apply_patch source n p c) [
  | err e ↦ err e
  | ok d ↦ apply_patches source (suc n) ps d
]

unfoldable pub compose_onto : List Layer → Composition → Result ComposeError Composition
unfolding apply_patches
compose_onto [] c = ok c
compose_onto (l ∷ ls) c = elim (apply_patches l.source 1 l.patches c) [
  | err e ↦ err e
  | ok d ↦ compose_onto ls d
]

-- `compose`.
unfoldable pub compose : List Layer → Result ComposeError Composition
unfolding compose_onto
compose layers = compose_onto layers (record { entries = []; warnings = [] })

-- `Composition.enabled`.
unfoldable pub enabled : List Entry → List Entry
enabled [] = []
enabled (e ∷ es) = let rest = enabled es in if e.disabled then rest else e ∷ rest
