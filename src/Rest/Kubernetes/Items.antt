-- ===== src/Rest/Kubernetes/Items.antt =====
-- The loop over the items of plugins/kubernetes/check_kubernetes.cpp.
use netmon_plugins.Json.Braces.{Nested, empty, other, braces}
use netmon_plugins.Rest.Kubernetes.{count_objects, at_bracket}
use netmon_plugins.Prelude.Text.{Bytes}
use netmon_plugins.Prelude.{
  ℕ, suc, ◌+◌, ◌≡◌, ◌≢◌, refl, List, [], ◌∷◌, ◌++◌, length, arith, append_assoc, pos, eqb_ℤ,
  minus_one, ◌+ℤ◌, ap, ◌∙◌, false, if◌then◌else◌,
}

pos_suc : (d : ℕ) → (pos d +ℤ pos 1) ≡ pos (suc d)
unfolding ◌+ℤ◌
pos_suc d = ground arith

pos_pred : (d : ℕ) → (pos (suc d) +ℤ minus_one) ≡ pos d
unfolding ◌+ℤ◌
pos_pred d = ground arith

not_zero : (d : ℕ) → eqb_ℤ (pos (suc d)) (pos 0) ≡ false
not_zero d = ground arith

past_other :
    (c depth items : ℕ) (s : Bytes)
    → c ≢ b'{'
    → c ≢ b'}'
    → count_objects (pos (suc depth)) items (c ∷ s) ≡ count_objects (pos (suc depth)) items s
unfolding count_objects
past_other c depth items s left right = ground arith

past_opening :
    (depth items : ℕ) (s : Bytes)
    → count_objects (pos depth) items (b'{' ∷ s) ≡ count_objects (pos (suc depth)) items s
unfolding count_objects
past_opening depth items s = rw (pos_suc depth) (ground arith)

past_closing :
    (depth items : ℕ) (s : Bytes)
    → count_objects (pos (suc (suc depth))) items (b'}' ∷ s)
      ≡ count_objects (pos (suc depth)) items s
unfolding count_objects
past_closing depth items s = rw (pos_pred (suc depth)) (rw (not_zero depth) (ground arith))

-- Inside an object, a text whose braces match is passed over.
past-Nested :
    {t : Bytes} (n : Nested t) (depth items : ℕ) (rest : Bytes)
    → count_objects (pos (suc depth)) items (t ++ rest) ≡ count_objects (pos (suc depth)) items rest
past-Nested empty depth items rest = refl
past-Nested (other {c = c} {s = s} left right n) depth items rest =
    past_other c depth items (s ++ rest) left right ∙ past-Nested n depth items rest
past-Nested (braces {s = s} {t = t} n n') depth items rest =
    past_opening (suc depth) items ((s ++ b'}' ∷ t) ++ rest)
    ∙ ap (count_objects (pos (suc (suc depth))) items) (append_assoc s (b'}' ∷ t) rest)
    ∙ past-Nested n (suc depth) items (b'}' ∷ (t ++ rest))
    ∙ past_closing depth items (t ++ rest)
    ∙ past-Nested n' depth items rest

-- What may stand between objects: neither a brace nor a closing bracket.
abbrev pub IsBetween : Bytes → Type 0
IsBetween [] = Unit
IsBetween (c ∷ s) = (c ≢ b'{') × (c ≢ b'}') × (c ≢ b']') × IsBetween s

between-opening :
    (between : Bytes) (s : Bytes) → IsBetween between → at_bracket (between ++ b'{' ∷ s) ≡ false
between-opening [] s h = refl
between-opening (c ∷ between) s (left, right, bracket, h) = ground arith

-- Between two objects the loop goes on to the next.
past_between :
    (items : ℕ) (between s : Bytes)
    → IsBetween between
    → count_objects (pos 0) items (between ++ b'{' ∷ s) ≡ count_objects (pos 0) items (b'{' ∷ s)
unfolding count_objects
past_between items [] s h = refl
past_between items (c ∷ between) s (left, right, bracket, h) =
    ground (arith, between-opening between s h, past_between items between s h)

-- Behind the last object the loop ends at the bracket.
at_end :
    (items c : ℕ) (between rest : Bytes)
    → IsBetween (c ∷ between)
    → count_objects (pos 0) items (c ∷ (between ++ b']' ∷ rest)) ≡ items
unfolding count_objects
at_end items c [] rest (left, right, bracket, h) = ground arith
at_end items c (d ∷ between) rest (left, right, bracket, h) =
    ground (arith, at_end items d between rest h)

closing :
    (items : ℕ) (s : Bytes)
    → count_objects (pos 1) items (b'}' ∷ s)
      ≡ (if at_bracket s then suc items else count_objects (pos 0) (suc items) s)
unfolding count_objects ◌+ℤ◌
closing items s = ground arith

last_brace :
    (items : ℕ) (between rest : Bytes)
    → IsBetween between
    → count_objects (pos 1) items (b'}' ∷ (between ++ b']' ∷ rest)) ≡ suc items
last_brace items [] rest h = closing items (b']' ∷ rest)
last_brace items (c ∷ between) rest (left, right, bracket, h) =
    closing items (c ∷ (between ++ b']' ∷ rest))
    ∙ ground (arith, at_end (suc items) c between rest (left, right, bracket, h))

next_brace :
    (items : ℕ) (between s : Bytes)
    → IsBetween between
    → count_objects (pos 1) items (b'}' ∷ (between ++ b'{' ∷ s))
      ≡ count_objects (pos 1) (suc items) s
next_brace items between s h =
    closing items (between ++ b'{' ∷ s)
    ∙ rw (between-opening between s h)
        (past_between (suc items) between s h ∙ past_opening 0 (suc items) s)

-- The objects of an array, from the first one's body on: each further one is what stands between and its body. The
-- last text stands in front of the bracket.
abbrev pub bodies : Bytes → List (Bytes × Bytes) → Bytes → Bytes → Bytes
bodies b [] last rest = b ++ b'}' ∷ (last ++ b']' ∷ rest)
bodies b ((between, b') ∷ bs) last rest = b ++ b'}' ∷ (between ++ b'{' ∷ bodies b' bs last rest)

abbrev pub AreObjects : List (Bytes × Bytes) → Type 0
AreObjects [] = Unit
AreObjects ((between, b) ∷ bs) = IsBetween between × Nested b × AreObjects bs

count_bodies :
    (b : Bytes) (bs : List (Bytes × Bytes)) (items : ℕ) (last rest : Bytes)
    → Nested b
    → AreObjects bs
    → IsBetween last
    → count_objects (pos 1) items (bodies b bs last rest) ≡ items + suc (length bs)
count_bodies b [] items last rest n ns h =
    past-Nested n 0 items (b'}' ∷ (last ++ b']' ∷ rest))
    ∙ last_brace items last rest h
    ∙ omega arith
count_bodies b ((between, b') ∷ bs) items last rest n (k, n', ns) h =
    past-Nested n 0 items (b'}' ∷ (between ++ b'{' ∷ bodies b' bs last rest))
    ∙ next_brace items between (bodies b' bs last rest) k
    ∙ count_bodies b' bs (suc items) last rest n' ns h
    ∙ omega arith

-- Behind the bracket of an array of one object and more, whose texts have matching braces, with any text without
-- braces and closing brackets, such as commas and white space, before, between and behind them: the loop counts the
-- objects, and does not look at what follows the array.
pub count_objects-bodies :
    (first b : Bytes) (bs : List (Bytes × Bytes)) (last rest : Bytes)
    → IsBetween first
    → Nested b
    → AreObjects bs
    → IsBetween last
    → count_objects (pos 0) 0 (first ++ b'{' ∷ bodies b bs last rest) ≡ suc (length bs)
count_objects-bodies first b bs last rest k n ns h =
    past_between 0 first (bodies b bs last rest) k
    ∙ past_opening 0 0 (bodies b bs last rest)
    ∙ count_bodies b bs 0 last rest n ns h
    ∙ omega arith

-- An array without objects is not left at its bracket: the loop goes on behind it.
pub count_objects-empty :
    (b : Bytes) (bs : List (Bytes × Bytes)) (last rest : Bytes)
    → Nested b
    → AreObjects bs
    → IsBetween last
    → count_objects (pos 0) 0 (b']' ∷ b',' ∷ b'{' ∷ bodies b bs last rest) ≡ suc (length bs)
unfolding count_objects
count_objects-empty b bs last rest n ns h =
    ground arith ∙ count_objects-bodies [] b bs last rest tt n ns h
