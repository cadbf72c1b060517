-- ===== src/Health/Redaction.antt =====
-- `_reject_private_tokens` of syvert/resource_health.py. What Python's `str` and `re` know of Unicode
-- is an argument.
use syvert.Common.{
  ℕ, String, Bool, true, false, not, ◌&&◌, ◌||◌, Option, none, some, List, [], ◌∷◌, eqb, codes,
  contains_text, health_contract, Check, forbid,
}

pub record Unicode : Type 0 where
  -- `str.lower`
  pub lower : List ℕ → List ℕ
  -- `\w` and `\s`
  pub is_word : ℕ → Bool
  pub is_space : ℕ → Bool
  -- a character of a pattern matches one of a text under `re.IGNORECASE`
  pub same_letter : ℕ → ℕ → Bool

abbrev pub private_credential_tokens : List String
private_credential_tokens =
    "authorization" ∷ "cookie" ∷ "cookies" ∷ "header" ∷ "headers" ∷ "ms_token" ∷ "session_dump"
    ∷ "token" ∷ "verify_fp" ∷ "xsec_token" ∷ []

abbrev pub unredacted_markers : List String
unredacted_markers = "leak" ∷ "leaked" ∷ "raw" ∷ "secret" ∷ "unredacted" ∷ []

any_in : List String → List ℕ → Bool
any_in [] cs = false
any_in (word ∷ words) cs = contains_text (codes word) cs || any_in words cs

module _ (u : Unicode) where
  word_at : List ℕ → Bool
  word_at [] = false
  word_at (c ∷ cs) = u.is_word c

  word_before : Option ℕ → Bool
  word_before none = false
  word_before (some c) = u.is_word c

  -- `\b`, by the character before and the text after
  at_boundary : Option ℕ → List ℕ → Bool
  unfolding word_at word_before
  at_boundary before after =
      (word_before before && not (word_at after)) || (not (word_before before) && word_at after)

  -- A token at the head of the text: the last character that it takes, and the rest.
  match_token : Option ℕ → List ℕ → List ℕ → Option (Option ℕ × List ℕ)
  match_token before [] cs = some (before, cs)
  match_token before (p ∷ ps) [] = none
  match_token before (p ∷ ps) (c ∷ cs) = elim (u.same_letter p c) [
    | true ↦ match_token (some c) ps cs
    | false ↦ none
  ]

  -- `\s*[:=]`
  assigns : List ℕ → Bool
  assigns [] = false
  assigns (c ∷ cs) = eqb c b':' || eqb c b'=' || (u.is_space c && assigns cs)

  token_assigned : Option ℕ → List ℕ → List String → Bool
  unfolding at_boundary match_token assigns
  token_assigned before cs [] = false
  token_assigned before cs (token ∷ tokens) =
      (elim (match_token before (codes token) cs) [
        | none ↦ false
        | some (last, rest) ↦ at_boundary before cs && at_boundary last rest && assigns rest
      ])
      || token_assigned before cs tokens

  -- `_PRIVATE_ASSIGNMENT_RE.search`
  finds_assignment : Option ℕ → List ℕ → Bool
  unfolding token_assigned
  finds_assignment before [] = false
  finds_assignment before (c ∷ cs) =
      token_assigned before (c ∷ cs) private_credential_tokens || finds_assignment (some c) cs

  unfoldable pub is_private : String → Bool
  unfolding finds_assignment any_in
  is_private value =
      let cs = codes value in
      finds_assignment none cs
      || (any_in private_credential_tokens (u.lower cs) && any_in unredacted_markers (u.lower cs))

  unfoldable pub reject_private_tokens : String → Check
  unfolding is_private
  reject_private_tokens value = forbid (is_private value) health_contract
