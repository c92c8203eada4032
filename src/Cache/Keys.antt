-- ===== src/Cache/Keys.antt =====
-- The keys of src/common/cache/cache.keys.ts. `sha256` is the digest of node's crypto, in
-- hexadecimal, and `show` writes a whole number.
use docent.Base.{ℕ, Bool, true, false, [], ◌∷◌, ◌++◌, if◌then◌else◌, Text, codes, is_space, trim}

-- `.replace(/\s+/g, ' ')`: a run of white space becomes one blank. The flag says whether the
-- character before was white space.
unfoldable pub collapse : Bool → Text → Text
collapse after_space [] = []
collapse after_space (c ∷ s) =
    let behind_space = collapse true s in
    let behind_other = collapse false s in
    if is_space c then if after_space then behind_space else 32 ∷ behind_space else c ∷ behind_other

unfoldable pub normalise_question : Text → Text
unfolding trim collapse
normalise_question question = collapse false (trim question)

pub record AnsweringConfig : Type 0 where
  llm_chain : Text
  grounding_max_distance : Text
  pub embedding_model : Text

module _ (sha256 : Text → Text) where
  pub question_hash : Text → Text
  unfolding normalise_question
  question_hash question = sha256 (normalise_question question)

  -- The threshold is given as `String` writes it.
  unfoldable pub answering_config_fingerprint : AnsweringConfig → Text
  answering_config_fingerprint config = sha256 (
      config.llm_chain
      ++ (b':' ∷ (config.grounding_max_distance ++ (b':' ∷ config.embedding_model))))

  unfoldable pub answer_key : Text → Text → Text → Text
  unfolding question_hash
  answer_key version question config_fingerprint =
      codes "ans:" ++ (version ++ (b':' ∷ (config_fingerprint ++ (b':' ∷ question_hash question))))

  unfoldable pub embedding_key : (ℕ → Text) → Text → ℕ → Text → Text
  unfolding normalise_question
  embedding_key show model dimensions question =
      codes "emb:"
      ++ sha256 (model ++ (b':' ∷ (show dimensions ++ (b':' ∷ normalise_question question))))
