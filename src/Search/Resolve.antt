-- ===== src/Search/Resolve.antt =====
-- Clauses against a stream: `resolve_sort` of crates/rsearch-search/src/sort.rs. The mapping and the
-- inventory of unmapped fields are functions of a name.
pub mod Missing
mod Tests
use r_search.Base.{
  ℕ, ◌-◌, ◌≡◌, Bool, true, false, ◌&&◌, ◌||◌, not, List, [], ◌∷◌, Option, none, some, if◌then◌else◌,
  length, take, drop,
}
use r_search.Search.Sort.{
  SortType, keyword_type, long_type, double_type, boolean_type, date_type, ip_type, SortValue,
}
use r_search.Search.Query.{Json, Text, string, same_text}
use r_search.Search.Clauses.{SortMode, min, max, SortField, is_timestamp}
use r_search.Search.Collector.{ResolvedSort}
use r_search.Search.Paging.{Formats, parse_sort_value}

pub data FieldType : Type 0 where
  keyword_field long_field double_field boolean_field date_field ip_field text_field : FieldType

pub data SortTarget : Type 0 where
  timestamp seq unmapped : SortTarget
  mapped dynamic_keyword dynamic_path : Text → SortTarget

pub data ResolveError : Type 0 where
  text_fielddata bad_unmapped_type no_mapping bad_missing : ResolveError

pub data ResolveResult (A : Type 0) : Type 0 where
  ok : A → ResolveResult A
  err : ResolveError → ResolveResult A

infixl 5 ◌>>=◌
abbrev pub ◌>>=◌ : {A B : Type 0} → ResolveResult A → (A → ResolveResult B) → ResolveResult B
ok a >>= f = f a
err e >>= f = err e

pub record Stream : Type 0 where
  pub mapping : Text → Option FieldType
  pub dynamic : Text → Option (List Text)

-- `_seq`.
abbrev pub seq_field : Text
seq_field = 95 ∷ 115 ∷ 101 ∷ 113 ∷ []

-- `.keyword`.
abbrev pub keyword_suffix : Text
keyword_suffix = 46 ∷ 107 ∷ 101 ∷ 121 ∷ 119 ∷ 111 ∷ 114 ∷ 100 ∷ []

abbrev pub strip_suffix : Text → Text → Option Text
strip_suffix suffix name =
    if same_text (drop (length name - length suffix) name) suffix
    then some (take (length name - length suffix) name)
    else none

abbrev pub text_double : Text
text_double = 100 ∷ 111 ∷ 117 ∷ 98 ∷ 108 ∷ 101 ∷ []

abbrev pub text_long : Text
text_long = 108 ∷ 111 ∷ 110 ∷ 103 ∷ []

abbrev pub text_boolean : Text
text_boolean = 98 ∷ 111 ∷ 111 ∷ 108 ∷ 101 ∷ 97 ∷ 110 ∷ []

abbrev pub text_string : Text
text_string = 115 ∷ 116 ∷ 114 ∷ 105 ∷ 110 ∷ 103 ∷ []

abbrev pub has : Text → List Text → Bool
has t [] = false
has t (u ∷ us) = same_text u t || has t us

abbrev pub mapped_type : FieldType → ResolveResult SortType
mapped_type keyword_field = ok keyword_type
mapped_type long_field = ok long_type
mapped_type double_field = ok double_type
mapped_type boolean_field = ok boolean_type
mapped_type date_field = ok date_type
mapped_type ip_field = ok ip_type
mapped_type text_field = err text_fielddata

abbrev pub dynamic_type : List Text → ResolveResult SortType
dynamic_type types =
    if has text_string types
    then err text_fielddata
    else if has text_double types
    then ok double_type
    else if has text_long types
    then ok long_type
    else if has text_boolean types
    then ok boolean_type
    else ok date_type

abbrev pub typed_target :
    SortTarget → ResolveResult SortType → ResolveResult (SortTarget × SortType)
typed_target target found = found >>= (λ ty. ok (target, ty))

-- The base of `<path>.keyword` on an unmapped path that holds strings.
abbrev pub raw_base : Stream → Text → Option Text
raw_base stream name = elim (strip_suffix keyword_suffix name) [
  | none ↦ none
  | some base ↦ elim (stream.mapping base) [
    | some ty ↦ none
    | none ↦ elim (stream.dynamic base) [
      | none ↦ none
      | some types ↦ if not (same_text base []) && has text_string types then some base else none
    ]
  ]
]

-- `keyword`.
abbrev pub text_keyword : Text
text_keyword = 107 ∷ 101 ∷ 121 ∷ 119 ∷ 111 ∷ 114 ∷ 100 ∷ []

-- `integer`.
abbrev pub text_integer : Text
text_integer = 105 ∷ 110 ∷ 116 ∷ 101 ∷ 103 ∷ 101 ∷ 114 ∷ []

-- `short`.
abbrev pub text_short : Text
text_short = 115 ∷ 104 ∷ 111 ∷ 114 ∷ 116 ∷ []

-- `byte`.
abbrev pub text_byte : Text
text_byte = 98 ∷ 121 ∷ 116 ∷ 101 ∷ []

-- `float`.
abbrev pub text_float : Text
text_float = 102 ∷ 108 ∷ 111 ∷ 97 ∷ 116 ∷ []

-- `half_float`.
abbrev pub text_half_float : Text
text_half_float = 104 ∷ 97 ∷ 108 ∷ 102 ∷ 95 ∷ 102 ∷ 108 ∷ 111 ∷ 97 ∷ 116 ∷ []

-- `date`.
abbrev pub text_date : Text
text_date = 100 ∷ 97 ∷ 116 ∷ 101 ∷ []

-- `ip`.
abbrev pub text_ip : Text
text_ip = 105 ∷ 112 ∷ []

-- `_last`.
abbrev pub text_last : Text
text_last = 95 ∷ 108 ∷ 97 ∷ 115 ∷ 116 ∷ []

-- `_first`.
abbrev pub text_first : Text
text_first = 95 ∷ 102 ∷ 105 ∷ 114 ∷ 115 ∷ 116 ∷ []

unfoldable pub parse_unmapped : Text → Option SortType
parse_unmapped name =
    if same_text name text_keyword
    then some keyword_type
    else if has name (text_long ∷ text_integer ∷ text_short ∷ text_byte ∷ [])
    then some long_type
    else if has name (text_double ∷ text_float ∷ text_half_float ∷ [])
    then some double_type
    else if same_text name text_boolean
    then some boolean_type
    else if same_text name text_date
    then some date_type
    else if same_text name text_ip
    then some ip_type
    else none

abbrev pub unmapped_target : Option Text → ResolveResult (SortTarget × SortType)
unmapped_target none = err no_mapping
unmapped_target (some ty) = elim (parse_unmapped ty) [
  | none ↦ err bad_unmapped_type
  | some t ↦ ok (unmapped, t)
]

unfoldable pub target_of : Stream → SortField → ResolveResult (SortTarget × SortType)
target_of stream f =
    if is_timestamp f
    then ok (timestamp, date_type)
    else if same_text f.name seq_field
    then ok (seq, long_type)
    else elim (stream.mapping f.name) [
      | some ty ↦ typed_target (mapped f.name) (mapped_type ty)
      | none ↦ elim (raw_base stream f.name) [
        | some base ↦ ok (dynamic_keyword base, keyword_type)
        | none ↦ elim (stream.dynamic f.name) [
          | some types ↦ typed_target (dynamic_path f.name) (dynamic_type types)
          | none ↦ unmapped_target f.unmapped_type
        ]
      ]
    ]

-- The mode that a clause names, or that of its direction.
abbrev pub use_max_of : Bool → Option SortMode → Bool
use_max_of desc (some max) = true
use_max_of desc (some min) = false
use_max_of desc none = desc

abbrev pub substitute_of : Bool → Option SortValue → ResolveResult (Bool × Option SortValue)
substitute_of desc none = err bad_missing
substitute_of desc (some v) = ok (not desc, some v)

abbrev pub missing_string :
    Bool → Text → ResolveResult (Bool × Option SortValue) → ResolveResult (Bool × Option SortValue)
missing_string desc s other =
    if same_text s text_last
    then ok (not desc, none)
    else if same_text s text_first
    then ok (desc, none)
    else other

module _ (formats : Formats) where
  -- Whether missing values are the maximum, and what stands for them.
  abbrev pub missing_of : Bool → SortType → Option Json → ResolveResult (Bool × Option SortValue)
  missing_of desc ty none = ok (not desc, none)
  missing_of desc ty (some (string s)) =
      missing_string desc s (substitute_of desc (parse_sort_value formats (string s) ty))
  missing_of desc ty (some value) = substitute_of desc (parse_sort_value formats value ty)

  abbrev pub resolved :
      SortField
      → SortTarget
      → SortType
      → ResolveResult (Bool × Option SortValue)
      → ResolveResult (SortTarget × ResolvedSort)
  resolved f target ty (err e) = err e
  resolved f target ty (ok (null_is_max, substitute)) = ok (
    target,
    record {
      ty = ty;
      desc = f.desc;
      use_max = use_max_of f.desc f.mode;
      null_is_max = null_is_max;
      substitute = substitute;
    },
  )

  abbrev pub resolve_typed :
      SortField → ResolveResult (SortTarget × SortType) → ResolveResult (SortTarget × ResolvedSort)
  resolve_typed f (err e) = err e
  resolve_typed f (ok (target, ty)) = resolved f target ty (missing_of f.desc ty f.missing)

  unfoldable pub resolve_field : Stream → SortField → ResolveResult (SortTarget × ResolvedSort)
  resolve_field stream f = resolve_typed f (target_of stream f)

  abbrev pub resolve_sort :
      Stream → List SortField → ResolveResult (List (SortTarget × ResolvedSort))
  resolve_sort stream [] = ok []
  resolve_sort stream (f ∷ fs) =
      resolve_field stream f >>= (λ r. resolve_sort stream fs >>= (λ rs. ok (r ∷ rs)))
