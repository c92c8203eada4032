-- ===== src/Tests/Logs.antt =====
-- The logger's levels and messages at concrete calls.
use docent.Base.{
  ℕ, ◌≡◌, refl, true, false, some, [], ◌∷◌, codes, is_space, trim, literal, run_of, is_digit,
}
use docent.Chunker.Lines.{is_line_end}
use docent.Logging
use docent.Logging.RequestId.{request_id_of}
use docent.Logging.{is_level_enabled, is_stack_format}

-- Between two levels that are configured a level is left off.
warn_left_off : is_level_enabled (Logging.log ∷ Logging.error ∷ []) Logging.warn ≡ false
unfolding is_level_enabled
warn_left_off = refl

stack_found : is_stack_format ℕ (codes "E: x\n  at f.ts:1:2") ≡ true
unfolding is_stack_format Logging.has_position run_of literal is_space is_digit is_line_end
stack_found = refl

name_is_no_stack : is_stack_format ℕ (codes "Router") ≡ false
unfolding is_stack_format Logging.has_position run_of literal is_space is_digit is_line_end
name_is_no_stack = refl

blank_replaced : request_id_of (some (codes "  ")) (codes "fresh") ≡ codes "fresh"
unfolding request_id_of trim
blank_replaced = refl
