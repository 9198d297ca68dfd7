-- ===== src/Assemble/Steps.antt =====
-- The steps of `parse_tokens` of src/binxml/assemble.rs where it succeeds, whatever the output.
use evtx.Base.{ℕ, ◌≡◌, List}
use evtx.Base.Result.{ok, ◌>>=◌, >>=-ok}
use evtx.Crates.{Crates}
use evtx.Model.Deserialized.{BinXmlDeserializedTokens}
use evtx.Model.Xml.{XmlModel}
use evtx.Chunk.Data.{EvtxChunk}
use evtx.Output.{BinXmlOutput}
use evtx.Assemble.Expand.{expand_templates}
use evtx.Assemble.RecordModel.{create_record_model}
use evtx.Assemble.Parse.{parse_tokens, visit_record}

module _ ⦃x : Crates⦄ {S : Type 0} (visitor : BinXmlOutput S) where
  pub parse_tokens-ok :
      (fuel : ℕ) (tokens : List BinXmlDeserializedTokens) (chunk : EvtxChunk) (s out : S)
      → parse_tokens visitor fuel tokens chunk s ≡ ok out
      → (expanded : List BinXmlDeserializedTokens) × (model : List XmlModel) × (expand_templates
            fuel tokens chunk
          ≡ ok expanded)
        × (create_record_model expanded chunk ≡ ok model)
        × (visit_record visitor model s ≡ ok out)
  unfolding parse_tokens
  parse_tokens-ok fuel tokens chunk s out h =
      let (expanded, e, k) =
        >>=-ok (expand_templates fuel tokens chunk)
          (λ ts. create_record_model ts chunk >>= λ m. visit_record visitor m s) out h in
      let (model, g, l) =
        >>=-ok (create_record_model expanded chunk) (λ m. visit_record visitor m s) out k in
      (expanded, model, e, g, l)
