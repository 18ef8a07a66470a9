-- ===== src/Json.antt =====
-- src/common/json_utils.cpp: values that are found in a JSON text by regular expressions. std::regex is the argument
-- `Regex`, and `std::stod` the argument of `extract_json_number`; both may throw.
pub mod Braces
use netmon_plugins.Cpp.Result.{Result, returns, throws, undefined, ◌>>=◌, catch_all}
use netmon_plugins.Prelude.Text.{Bytes, codes, concat, contains, text_eq}
use netmon_plugins.Prelude.{
  ℕ, zero, suc, ◌+◌, ◌-◌, Bool, true, false, ◌&&◌, ◌||◌, ◌==◌, leb, if◌then◌else◌, List, [], ◌∷◌,
  ◌++◌, Option, none, some, is_empty, map, drop, take, not,
}

-- What `std::regex_search` finds: where, how long it is, and the first group.
pub record Match : Type 0 where
  pub position : ℕ
  pub extent : ℕ
  pub group : Bytes

-- A pattern is compiled and searched for in a text; `search_any_case` is with `std::regex_constants::icase`.
pub record Regex : Type 0 where
  pub search : Bytes → Bytes → Result (Option Match)
  pub search_any_case : Bytes → Bytes → Result (Option Match)

-- `" \t\n\r"`
abbrev is_blank : ℕ → Bool
is_blank c = c == 32 || c == 9 || c == 10 || c == 13

-- `value.erase(0, value.find_first_not_of(" \t\n\r"))`
unfoldable pub trim_left : Bytes → Bytes
trim_left [] = []
trim_left (c ∷ s) = let rest = trim_left s in if is_blank c then rest else c ∷ s

-- `value.erase(value.find_last_not_of(" \t\n\r") + 1)`
unfoldable pub trim_right : Bytes → Bytes
trim_right [] = []
trim_right (c ∷ s) = let rest = trim_right s in if is_blank c && is_empty rest then [] else c ∷ rest

-- The pattern of a key, with what follows its colon.
abbrev pub key_pattern : Bytes → Bytes → Bytes
key_pattern key value = concat ((34 ∷ []) ∷ key ∷ (34 ∷ []) ∷ codes "\\s*:" ∷ value ∷ [])

module _ (regex : Regex) where
  unfoldable pub extract_json_value : Bytes → Bytes → Result Bytes
  extract_json_value json key =
      regex.search (key_pattern key (codes "\\s*\"([^\"]+)\"")) json >>= λ quoted. elim quoted [
        | some m ↦ returns m.group
        | none ↦ regex.search (key_pattern key (codes "\\s*([^,\\}]+)")) json >>= λ bare.
            elim bare [ some m ↦ returns (trim_right (trim_left m.group)) | none ↦ returns [] ]
      ]

  unfoldable pub json_has_key : Bytes → Bytes → Result Bool
  json_has_key json key = regex.search (key_pattern key []) json >>= λ found. elim found [
    | some m ↦ returns true
    | none ↦ returns false
  ]

-- The loop over `braceCount`: what follows an opening brace, up to the brace that closes it.
unfoldable pub take_object : ℕ → Bytes → Option Bytes
take_object zero s = some []
take_object (suc depth) [] = none
take_object (suc depth) (c ∷ s) =
    let next = if c == b'{' then suc (suc depth) else if c == b'}' then depth else suc depth in
    elim (take_object next s) [ none ↦ none | some t ↦ some (c ∷ t) ]

-- The keys of a path: the texts between its dots.
unfoldable pub keys_of : Bytes → Bytes × List Bytes
keys_of [] = ([], [])
keys_of (c ∷ s) =
    let rest = keys_of s in if c == b'.' then ([], rest.0 ∷ rest.1) else (c ∷ rest.0, rest.1)

-- `key.substr(key.rfind('.') + 1)`
abbrev pub last_key : Bytes → List Bytes → Bytes
last_key k [] = k
last_key k (k' ∷ keys) = last_key k' keys

-- `nestedJson`, where a match ends with the opening brace.
unfoldable pub nested_object : Bytes → Match → Option Bytes
nested_object json m = elim (take_object 1 (drop (m.position + m.extent) json)) [
  | none ↦ none
  | some t ↦ some (take 1 (drop (m.position + m.extent - 1) json) ++ t)
]

-- `::tolower`
abbrev pub to_lower : ℕ → ℕ
to_lower c = if leb 65 c && leb c 90 then c + 32 else c

module _ (regex : Regex) where
  -- The recursion on the path, over its keys.
  unfoldable pub extract_at : Bytes → Bytes → List Bytes → Result Bytes
  extract_at json key [] = extract_json_value regex json key
  extract_at json key (k ∷ keys) =
      regex.search (key_pattern key (codes "\\s*\\{")) json >>= λ found. elim found [
        | none ↦ returns []
        | some m ↦ elim (nested_object json m) [
          | none ↦ returns []
          | some inner ↦ extract_at inner k keys
        ]
      ]

  unfoldable pub extract_json_nested_value : Bytes → Bytes → Result Bytes
  extract_json_nested_value json path = extract_at json (keys_of path).0 (keys_of path).1

  unfoldable pub extract_json_number {ℓ} :
      {D : Type ℓ} → (Bytes → Result D) → D → Bytes → Bytes → Result D
  extract_json_number stod nought json key = do
    value ←
        if contains (codes ".") key
        then extract_json_nested_value json key
        else extract_json_value regex json key
    text ←
        if is_empty value
        then (regex.search
              (key_pattern (last_key (keys_of key).0 (keys_of key).1)
                (codes "\\s*([0-9]+\\.?[0-9]*)"))
              json
            >>= λ found. elim found [ some m ↦ returns m.group | none ↦ returns [] ])
        else returns value
    if not (is_empty text) then catch_all (stod text) nought else returns nought

  unfoldable pub extract_json_boolean : Bytes → Bytes → Result Bool
  extract_json_boolean json key = do
    value ← extract_json_value regex json key
    text ←
        if is_empty value
        then (regex.search_any_case (key_pattern key (codes "\\s*(true|false)")) json >>= λ found.
            elim found [ some m ↦ returns m.group | none ↦ returns [] ])
        else returns value
    returns (text_eq (map to_lower text) (codes "true") || text_eq (map to_lower text) (codes "1"))
