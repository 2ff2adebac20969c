-- ===== src/Sql/Extract.antt =====
-- `extractSQL`: the query of a fenced answer.
use querylynx.Base.{
  ℕ, true, false, ◌||◌, none, some, [], ◌∷◌, ◌++◌, ◌≡◌, refl, arith, ◌==◌, is_nil, Option-cases,
  inl, inr, All, All-append, All-map, append_assoc,
}
use querylynx.Strings.{Text, codes, is_space, trim_left, trim_right, trim_space, index, has_prefix}
use querylynx.Strings.Trim.{
  Blank, trim_space-All, trim_space-append, trim_space_word, trim_space_keeps, trim_space_idem,
  trim_left-All,
}
use querylynx.Strings.Index.{Lacks, index-append}
use querylynx.Sql.{
  extract_sql, from_fence, in_fence, drop_tag, until_fence, is_word_text, is_alphanumeric,
  all_alphanumeric,
}

abbrev pub fence : Text
fence = codes "```"

-- With no backtick before it, the fence is found where it stands.
index-fence :
    (before rest : Text)
    → Lacks b'`' before
    → index (before ++ (fence ++ rest)) fence ≡ some (before, fence ++ rest)
unfolding index has_prefix
index-fence [] rest h = refl
index-fence (c ∷ before) rest (hc, hs) = rw hc (rw (index-fence before rest hs))

-- What is extracted from an answer has no blank at either end.
pub extract_sql_trimmed : (resp : Text) → trim_space (extract_sql resp) ≡ extract_sql resp
unfolding extract_sql from_fence in_fence
extract_sql_trimmed resp = elim (Option-cases (index (trim_space resp) (codes "```"))) [
  | inl e ↦ rw e (trim_space_idem resp)
  | inr ((before, found), e) ↦ rw e (trim_space_idem _)
]

newline-Blank : Blank (b'\n' ∷ [])
unfolding is_space
newline-Blank = (refl, tt)

-- A language tag, or none.
abbrev pub IsTag : Text → Type 0
IsTag = All (λ c. is_alphanumeric c ≡ true)

alphanumeric-not_space : (c : ℕ) → is_alphanumeric c ≡ true → is_space c ≡ false
unfolding is_alphanumeric is_space
alphanumeric-not_space c h = ground arith

alphanumeric-ne-newline : (c : ℕ) → is_alphanumeric c ≡ true → (c == b'\n') ≡ false
unfolding is_alphanumeric
alphanumeric-ne-newline c h = ground arith

IsTag-all_alphanumeric : (tag : Text) → IsTag tag → all_alphanumeric tag ≡ true
unfolding all_alphanumeric
IsTag-all_alphanumeric [] h = refl
IsTag-all_alphanumeric (c ∷ tag) (hc, h) = rw hc (IsTag-all_alphanumeric tag h)

IsTag-test :
    (tag : Text) → IsTag tag → (is_nil (trim_space tag) || is_word_text (trim_space tag)) ≡ true
unfolding is_word_text
IsTag-test tag h =
    rw
      (trim_space_word tag (All-map _ _ tag alphanumeric-not_space h), IsTag-all_alphanumeric tag h)
      (ground arith)

-- What stands behind the opening fence.
in_fence_tagged :
    (tag q after : Text)
    → IsTag tag
    → Lacks b'`' q
    → in_fence (tag ++ b'\n' ∷ (q ++ (b'\n' ∷ (fence ++ after)))) ≡ trim_space q
unfolding in_fence
in_fence_tagged tag q after ht hq =
    let line =
      index-append b'\n' tag (q ++ (b'\n' ∷ (fence ++ after)))
        (All-map _ _ tag alphanumeric-ne-newline ht) in
    let closing : index (q ++ (b'\n' ∷ (fence ++ after))) fence
        ≡ some (q ++ b'\n' ∷ [], fence ++ after) =
      rw (← append_assoc q (b'\n' ∷ []) (fence ++ after))
        (index-fence (q ++ b'\n' ∷ []) after (All-append _ q (b'\n' ∷ []) hq (ground arith))) in
    rw (line, drop_tag)
      (rw (IsTag-test tag ht)
        (rw (closing, until_fence) (trim_space-append q (b'\n' ∷ []) (newline-Blank))))

backtick_solid : is_space b'`' ≡ false
unfolding is_space
backtick_solid = refl

fence_shape :
    (tag q x : Text)
    → (b'`' ∷ b'`' ∷ (tag ++ b'\n' ∷ (q ++ (b'\n' ∷ b'`' ∷ b'`' ∷ [])))) ++ b'`' ∷ x
      ≡ b'`' ∷ b'`' ∷ (tag ++ b'\n' ∷ (q ++ (b'\n' ∷ (fence ++ x))))
fence_shape tag q x = simp append_assoc

-- Trimming the answer touches only what stands outside the fences.
trim_space-fenced :
    (before tag q after : Text)
    → trim_space (before ++ (fence ++ (tag ++ b'\n' ∷ (q ++ (b'\n' ∷ (fence ++ after))))))
      ≡ trim_left is_space before
        ++ (fence ++ (tag ++ b'\n' ∷ (q ++ (b'\n' ∷ (fence ++ trim_right is_space after)))))
trim_space-fenced before tag q after =
    rw (← fence_shape tag q after, ← fence_shape tag q (trim_right is_space after))
      (trim_space_keeps before after b'`' b'`'
        (b'`' ∷ b'`' ∷ (tag ++ b'\n' ∷ (q ++ (b'\n' ∷ b'`' ∷ b'`' ∷ [])))) backtick_solid
        backtick_solid)

-- From an answer with prose without a backquote, a fence, a tag line that is a word or blank, a
-- query without a backquote, and a closing fence, what is extracted is the trimmed query, whatever
-- follows.
pub extract_sql-fenced :
    (before tag q after : Text)
    → Lacks b'`' before
    → IsTag tag
    → Lacks b'`' q
    → extract_sql (before ++ (fence ++ (tag ++ b'\n' ∷ (q ++ (b'\n' ∷ (fence ++ after))))))
      ≡ trim_space q
unfolding extract_sql from_fence
extract_sql-fenced before tag q after hb ht hq =
    let after' = trim_right is_space after in
    let found =
      index-fence (trim_left is_space before) (tag ++ b'\n' ∷ (q ++ (b'\n' ∷ (fence ++ after'))))
        (trim_left-All is_space _ before hb) in
    rw (trim_space-fenced before tag q after)
      (rw (found, from_fence) (in_fence_tagged tag q after' ht hq))

index-none : (s : Text) → Lacks b'`' s → index s fence ≡ none
unfolding index has_prefix
index-none [] h = refl
index-none (c ∷ s) (hc, hs) = rw hc (rw (index-none s hs))

-- With no fence, the whole answer is the query.
pub extract_sql_plain : (resp : Text) → Lacks b'`' resp → extract_sql resp ≡ trim_space resp
unfolding extract_sql
extract_sql_plain resp h = rw (index-none (trim_space resp) (trim_space-All _ resp h), from_fence)
