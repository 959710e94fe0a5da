-- ===== src/Memory/Query.antt =====
-- `BasicMemoryStrategy` of core/domain/memory.py: which memories a query selects, and in what order.
pub mod Order
pub mod Chosen
use evernight_ai.Prelude.{
  ℕ, zero, suc, ◌+◌, ◌-◌, ◌*◌, ◌/◌, ◌≤◌, ◌<◌, max, String, ◌≡◌, refl, sym, ap, ◌∙◌, ◌≢◌, ◌↔◌, ◌⊎◌,
  inl, inr, Bool, true, false, not, ◌&&◌, ◌||◌, Option, none, some, List, [], ◌∷◌, ◌++◌, map,
  reverse, arith, eq_iff, ltb, leb, eqb, if◌then◌else◌, text_ltb, Eq, ◌==◌, nat_eq, nat_beq_iff,
  string_eq, option_eq, pair_eq, discrete_eq, string-discrete, nat-discrete, beq_refl, if_either,
  Bool-cases, Option-cases, is_some, or_else, when, text_ltb_asym, text_le_trans, length, keep, any,
  all, take, drop, get_elem?, All, length-append, length-keep-le, length-take, All-append,
  All-behind, All-keep, All-take, keep_sound, keep-append, keep_none, length-drop-le, All-keep_both,
  All-map, Result, ok, err, Error, ◌>>=◌, ◌>>◌, require, >>=-eq-ok, Result-cases, ok-injective,
  place_by, sorted_by, All-sorted_by, sorted_by-All, Sorted, sorted_by-Sorted, length-sorted_by, ℤ,
  pos, negsuc, negated, int_ltb, int_ltb_asym, int_le_trans, minus,
}
use Prim.Native.String.{◌++◌ as ◌<>◌}
use evernight_ai.Memory.{
  MemoryItem, MemoryKind, MemoryKind-discrete, MemoryScope, MemoryScope-discrete, kind_eq, scope_eq,
  kind_value, scope_value,
}

-- What the strategy uses of Python's texts and regular expressions.
pub record Texts : Type 0 where
  -- `s.casefold()`
  pub casefold : String → String
  -- `s.strip()`
  pub strip : String → String
  -- `re.findall(r"[\w]+", s)`
  pub words : String → List String
  -- `token in s`
  pub occurs : String → String → Bool

pub record MemoryScopeSelector : Type 0 where
  pub scope : MemoryScope
  pub scope_id : Option String

pub data MemorySort : Type 0 where
  default priority relevance confidence updated_at created_at memory_id : MemorySort

-- `MemoryQuery`, without its free-form metadata.
pub record MemoryQuery : Type 0 where
  pub text : Option String
  pub scope : Option MemoryScope
  pub scope_id : Option String
  pub scopes : List MemoryScopeSelector
  pub kinds : List MemoryKind
  pub tags : List String
  pub minimum_relevance : Option ℕ
  pub minimum_confidence : Option ℕ
  pub include_disabled : Bool
  pub include_expired : Bool
  pub deduplicate : Bool
  pub sort : MemorySort
  pub limit : Option ℕ

-- The selector names the memory's scope.
unfoldable pub selects : MemoryItem → MemoryScopeSelector → Bool
selects m s = (m.scope == s.scope) && (m.scope_id == s.scope_id)

-- `x is None or x == value`, in the code's `if` with a negated test.
abbrev admits {ℓ} : {A : Type ℓ} ⦃e : Eq A⦄ → Option A → A → Bool
admits none a = true
admits (some wanted) a = a == wanted

-- `_matches_scope`
unfoldable pub matches_scope : MemoryItem → MemoryQuery → Bool
unfolding selects
matches_scope m q =
    if not (length q.scopes == 0)
    then any (selects m) q.scopes
    else admits q.scope m.scope && (not (is_some q.scope_id) || (m.scope_id == q.scope_id))

rank_in : MemoryItem → List MemoryScopeSelector → ℕ
unfolding selects
rank_in m [] = 0
rank_in m (s ∷ scopes) = let rest = rank_in m scopes in if selects m s then 0 else suc rest

-- `_scope_rank`
unfoldable pub scope_rank : MemoryItem → MemoryQuery → ℕ
unfolding rank_in
scope_rank m q = rank_in m q.scopes

-- `" ".join(texts)`
spaced : List String → String
spaced [] = ""
spaced (s ∷ []) = s
spaced (s ∷ t ∷ rest) = s <> " " <> spaced (t ∷ rest)

-- `_searchable_text`
unfoldable pub searchable_text : Texts → MemoryItem → String
unfolding spaced kind_value scope_value
searchable_text tx m =
    tx.casefold (spaced (m.content ∷ kind_value m.kind ∷ scope_value m.scope ∷ m.tags))

-- `_lexical_match`
unfoldable pub lexical_match : Texts → MemoryItem → String → Bool
unfolding searchable_text
lexical_match tx m text =
    all (λ token. tx.occurs token (searchable_text tx m)) (tx.words (tx.casefold text))

-- `if test: reasons.append(reason)`
abbrev noted : Bool → String → List String → List String
noted true reason rest = reason ∷ rest
noted false reason rest = rest

is_below : Option ℕ → ℕ → Bool
is_below none n = false
is_below (some minimum) n = ltb n minimum

has_expired : ℕ → Option ℕ → Bool
has_expired now none = false
has_expired now (some t) = leb t now

misses_text : Texts → MemoryItem → Option String → Bool
unfolding lexical_match
misses_text tx m none = false
misses_text tx m (some text) = not (lexical_match tx m text)

-- `_filter_reasons`; `now` is `datetime.now(timezone.utc)`.
unfoldable pub filter_reasons : Texts → ℕ → MemoryItem → MemoryQuery → List String
unfolding matches_scope is_below has_expired misses_text
filter_reasons tx now m q = noted (not q.include_disabled && not m.is_enabled) "disabled" (
    noted (not (matches_scope m q)) "scope" (
      noted (not (length q.kinds == 0) && not (any (λ k. m.kind == k) q.kinds)) "kind" (
        noted (not (length q.tags == 0) && not (all (λ t. any (λ u. t == u) m.tags) q.tags)) "tags"
          (noted (not q.include_expired && has_expired now m.expires_at) "expired" (
            noted (is_below q.minimum_relevance m.relevance) "minimum_relevance" (
              noted (is_below q.minimum_confidence m.confidence) "minimum_confidence"
                (noted (misses_text tx m q.text) "text" [])))))))

-- `_matches`
unfoldable pub matches : Texts → ℕ → MemoryQuery → MemoryItem → Bool
unfolding filter_reasons
matches tx now q m = length (filter_reasons tx now m q) == 0

-- The numbers of `_sort_key`, which end in the memory's id.
unfoldable pub sort_numbers : MemorySort → MemoryItem → List ℤ
unfolding negated
sort_numbers default m =
    negated m.priority ∷ negated (pos m.relevance) ∷ negated (pos m.confidence) ∷ []
sort_numbers priority m =
    negated m.priority ∷ negated (pos m.relevance) ∷ negated (pos m.confidence) ∷ []
sort_numbers relevance m =
    negated (pos m.relevance) ∷ negated m.priority ∷ negated (pos m.confidence) ∷ []
sort_numbers confidence m =
    negated (pos m.confidence) ∷ negated m.priority ∷ negated (pos m.relevance) ∷ []
sort_numbers updated_at m = negated (pos m.updated_at) ∷ []
sort_numbers created_at m = negated (pos m.created_at) ∷ []
sort_numbers memory_id m = []

-- `_sort_key`
unfoldable pub sort_key : MemoryQuery → MemoryItem → List ℤ × String
unfolding sort_numbers scope_rank
sort_key q m = (pos (scope_rank m q) ∷ sort_numbers q.sort m, m.memory_id)

-- `<` on tuples: the first numbers that differ decide, then the texts.
unfoldable pub key_ltb : List ℤ × String → List ℤ × String → Bool
unfolding int_ltb
key_ltb ([], s) ([], t) = text_ltb s t
key_ltb ([], s) (y ∷ ys, t) = true
key_ltb (x ∷ xs, s) ([], t) = false
key_ltb (x ∷ xs, s) (y ∷ ys, t) =
    let rest = key_ltb (xs, s) (ys, t) in int_ltb x y || (not (int_ltb y x) && rest)

unfoldable pub before : MemoryQuery → MemoryItem → MemoryItem → Bool
unfolding key_ltb sort_key
before q m n = key_ltb (sort_key q m) (sort_key q n)

-- Equality of `_deduplication_key`.
unfoldable pub same_memory : Texts → MemoryQuery → MemoryItem → MemoryItem → Bool
same_memory tx q m n =
    (tx.casefold (tx.strip m.content) == tx.casefold (tx.strip n.content))
    && ((m.kind == n.kind)
        && ((m.owner_id == n.owner_id)
            && (not (length q.scopes == 0)
                || ((m.scope == n.scope) && (m.scope_id == n.scope_id)))))

abbrev pub Filtered : Type 0
Filtered = List (String × List String)

-- The memories that have reasons against them.
unfoldable pub rejections : Texts → ℕ → MemoryQuery → List MemoryItem → Filtered
unfolding matches filter_reasons
rejections tx now q [] = []
rejections tx now q (m ∷ ms) =
    let rest = rejections tx now q ms in
    if matches tx now q m then rest else (m.memory_id, filter_reasons tx now m q) ∷ rest

-- The loop with `seen`: the memories that are the first of their key, and the others.
unfoldable pub deduplicated :
    Texts → MemoryQuery → List MemoryItem → List MemoryItem → List MemoryItem × Filtered
unfolding same_memory
deduplicated tx q seen [] = ([], [])
deduplicated tx q seen (m ∷ ms) =
    let is_duplicate = any (same_memory tx q m) seen in
    let (unique, duplicates) = deduplicated tx q (if is_duplicate then seen else m ∷ seen) ms in
    if is_duplicate
    then (unique, (m.memory_id, "duplicate" ∷ []) ∷ duplicates)
    else (m ∷ unique, duplicates)

unfoldable pub deduplicated_if :
    Bool → Texts → MemoryQuery → List MemoryItem → List MemoryItem × Filtered
unfolding deduplicated
deduplicated_if false tx q ms = (ms, [])
deduplicated_if true tx q ms = deduplicated tx q [] ms

unfoldable pub up_to : Option ℕ → List MemoryItem → List MemoryItem
up_to none ms = ms
up_to (some n) ms = take n ms

-- `MemorySelection`, with the counts and the filtered memories of its metadata.
pub record MemorySelection : Type 0 where
  pub memories : List MemoryItem
  pub total_candidates : ℕ
  pub matched_count : ℕ
  pub selected_count : ℕ
  pub filtered_count : ℕ
  pub filtered : Filtered

-- `select_memories`
unfoldable pub select_memories : Texts → ℕ → List MemoryItem → MemoryQuery → MemorySelection
unfolding matches rejections deduplicated_if up_to before
select_memories tx now memories q =
    let scored = sorted_by (before q) (keep (matches tx now q) memories) in
    let (unique, duplicates) = deduplicated_if q.deduplicate tx q scored in
    let selected = up_to q.limit unique in
    let filtered = rejections tx now q memories ++ duplicates in
    record {
      memories = selected;
      total_candidates = length memories;
      matched_count = length selected;
      selected_count = length selected;
      filtered_count = length filtered;
      filtered = filtered;
    }
