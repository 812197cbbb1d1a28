-- ===== src/Projection.antt =====
-- `ToolResultContextProjector` (src/interview_agent_runtime/tools/registry.py): what of a tool's
-- result goes to the model.
use interviewer.Prelude.{ℕ, String, true, ltb, leb, if◌then◌else◌}
use interviewer.Floats.{Floats}
use interviewer.Values.{Value, end, field, pos}
use interviewer.Tools.{Host}
use interviewer.Memory.{text_length}
use interviewer.Memory.Context.{take_text}

module _ ⦃F : Floats⦄ ⦃H : Host⦄ where
  -- `max(256, max_chars)`
  unfoldable pub new_projector : ℕ → ℕ
  new_projector max_chars = if ltb 256 max_chars then max_chars else 256

  unfoldable pub preview_of : ℕ → String → Value
  preview_of max_chars encoded = Value.dict (
      field "preview" (Value.str (take_text max_chars encoded)) (
        field "truncated" (Value.bool true) (
          field "original_size" (Value.int (pos (text_length encoded)))
            (field "content_hash" (Value.str (H.sha256 16 encoded)) end))))

  unfoldable pub project : ℕ → Value → Value
  project max_chars value =
      let encoded = H.dumps value in
      if leb (text_length encoded) max_chars then value else preview_of max_chars encoded
