-- ===== src/Memcached/Table.antt =====
-- `extractStatValue` on the table of statistics that a server prints.
use netmon_plugins.Cpp.Convert.{fits, int_max, stoi-to_string_self, stoi-out_of_range}
use netmon_plugins.Cpp.Decimal.{to_string, to_string-Lacks}
use netmon_plugins.Cpp.Result.{returns}
use netmon_plugins.HttpApi.Response.{crlf}
use netmon_plugins.Memcached.{extract_stat_value, number_of}
use netmon_plugins.Prelude.{
  ℕ, ◌≡◌, ◌≢◌, refl, List, [], ◌∷◌, ◌++◌, none, some, ℤ, minus_one, arith, Bool-cases, ◌==◌, inl,
  inr, Lacks, All, if◌then◌else◌, ap, ◌∙◌,
}
use netmon_plugins.Prelude.Search.{split_found, split_later}
use netmon_plugins.Prelude.Text.{Bytes, codes, split_at_first, strip_prefix}

-- `STAT name value\r\n`
abbrev pub row : Bytes → Bytes → Bytes → Bytes
row name value after = codes "STAT " ++ (name ++ 32 ∷ (value ++ (crlf ++ after)))

-- A name and a value of other rows, in front of a text.
abbrev pub rows : List (Bytes × Bytes) → Bytes → Bytes
rows [] after = after
rows ((name, value) ∷ table) after = row name value (rows table after)

-- Names are words without a capital S, values have no capital S, and none has the name.
abbrev pub IsOther : Bytes → Bytes × Bytes → Type 0
IsOther key (name, value) = Lacks 32 name × Lacks b'S' name × Lacks b'S' value × (name ≢ key)

needle : Bytes → Bytes
needle key = (codes "STAT " ++ key) ++ codes " "

-- Behind another word the prefix that ends with a space does not fit.
strip_prefix-other :
    (key name r : Bytes)
    → Lacks 32 key
    → Lacks 32 name
    → name ≢ key
    → strip_prefix (key ++ codes " ") (name ++ 32 ∷ r) ≡ none
unfolding strip_prefix
strip_prefix-other [] [] r hk hn differ = absurd (differ refl)
strip_prefix-other [] (x ∷ name) r hk (hx, hn) differ = ground arith
strip_prefix-other (k ∷ key) [] r (hk, h) hn differ = ground arith
strip_prefix-other (k ∷ key) (x ∷ name) r (hk, h) (hx, hn) differ = elim (Bool-cases (k == x)) [
  | inl same ↦ ground (
    arith,
    strip_prefix-other key name r h hn
        (λ e. differ (ap (λ l. x ∷ l) e ∙ ap (λ c. c ∷ key) (ground arith))),
  )
  | inr other ↦ ground arith
]

-- A word without the first byte of the needle is skipped.
split_at_first-skip :
    (s : ℕ) (n w rest a r : Bytes)
    → Lacks s w
    → split_at_first (s ∷ n) rest ≡ some (a, r)
    → split_at_first (s ∷ n) (w ++ rest) ≡ some (w ++ a, r)
unfolding split_at_first strip_prefix
split_at_first-skip s n [] rest a r lacks h = h
split_at_first-skip s n (x ∷ w) rest a r (hx, lacks) h =
    ground (arith, split_at_first-skip s n w rest a r lacks h)

strip_prefix-same :
    (key rest : Bytes) → strip_prefix (key ++ codes " ") (key ++ 32 ∷ rest) ≡ some rest
unfolding strip_prefix
strip_prefix-same [] rest = ground arith
strip_prefix-same (k ∷ key) rest = ground (arith, strip_prefix-same key rest)

split_row :
    (key name value rest a r : Bytes)
    → Lacks 32 key
    → IsOther key (name, value)
    → split_at_first (needle key) rest ≡ some (a, r)
    → (b : Bytes) × (split_at_first (needle key) (row name value rest) ≡ some (b, r))
unfolding strip_prefix needle
split_row key name value rest a r hk (hn, hs, hv, differ) h =
    let skip = split_at_first-skip b'S' (codes "TAT " ++ key ++ codes " ") in
    let at_end = skip crlf rest a r (ground arith) h in
    let at_value = skip value _ _ r hv at_end in
    let at_space = skip (32 ∷ []) _ _ r (ground arith) at_value in
    let at_name = skip name _ _ r hs at_space in
    let at_tat = skip (codes "TAT ") _ _ r (ground arith) at_name in
    (
      _,
      split_later (needle key) _ _ r b'S'
          (strip_prefix-other key name (value ++ (crlf ++ rest)) hk hn differ) at_tat,
    )

split_own :
    (key rest : Bytes)
    → split_at_first (needle key) (codes "STAT " ++ (key ++ 32 ∷ rest)) ≡ some ([], rest)
unfolding strip_prefix needle
split_own key rest = split_found (needle key) _ rest (strip_prefix-same key rest)

split_rows :
    (table : List (Bytes × Bytes)) (key text after : Bytes)
    → Lacks 32 key
    → All (IsOther key) table
    → (b : Bytes) × (split_at_first (needle key) (rows table (row key text after))
        ≡ some (b, text ++ (crlf ++ after)))
split_rows [] key text after hk others = ([], split_own key (text ++ (crlf ++ after)))
split_rows ((name, value) ∷ table) key text after hk (other, others) =
    let (b, found) = split_rows table key text after hk others in
    split_row key name value (rows table (row key text after)) b _ hk other found

split_line :
    (text after : Bytes)
    → Lacks 13 text
    → split_at_first crlf (text ++ (crlf ++ after)) ≡ some (text, after)
unfolding split_at_first strip_prefix
split_line [] after lacks = ground arith
split_line (x ∷ text) after (hx, lacks) = ground (arith, split_line text after lacks)

extract-found :
    (stats key b behind text after : Bytes)
    → split_at_first (key ++ codes " ") stats ≡ some (b, behind)
    → split_at_first crlf behind ≡ some (text, after)
    → extract_stat_value stats key ≡ number_of text
unfolding extract_stat_value
extract-found stats key b behind text after h k = rw (h, extract_stat_value) (rw k refl)

extract-row :
    (table : List (Bytes × Bytes)) (key text after : Bytes)
    → Lacks 32 key
    → All (IsOther key) table
    → Lacks 13 text
    → extract_stat_value (rows table (row key text after)) (codes "STAT " ++ key) ≡ number_of text
unfolding needle
extract-row table key text after hk others plain =
    let (b, found) = split_rows table key text after hk others in
    extract-found _ (codes "STAT " ++ key) b _ text after found (split_line text after plain)

-- In a table of rows whose names have neither a space nor a capital S and whose values have no capital S, the
-- value of the first row with a given name is found by this name, whatever follows the row: as the number it
-- is if an `int` holds it, else as -1.
pub extract_stat_value-rows :
    (table : List (Bytes × Bytes)) (key after : Bytes) (n : ℤ)
    → Lacks 32 key
    → All (IsOther key) table
    → extract_stat_value (rows table (row key (to_string n) after)) (codes "STAT " ++ key)
      ≡ returns (if fits int_max n then n else minus_one)
extract_stat_value-rows table key after n hk others = elim (Bool-cases (fits int_max n)) [
  | inl fit ↦
      extract-row table key (to_string n) after hk others (to_string-Lacks 13 (omega arith) n)
      ∙ rw (fit, stoi-to_string_self n fit) refl
  | inr large ↦
      extract-row table key (to_string n) after hk others (to_string-Lacks 13 (omega arith) n)
      ∙ rw (large, stoi-out_of_range n large) refl
]
