-- ===== src/Translate/RoundTrip/Fields.antt =====
-- The fields of a request that buildAnthropicRequest prints, by their names.
use simple_api.Base.{
  ◌≡◌, refl, ap, ◌∙◌, inl, inr, Bool, true, false, ◌&&◌, Option, none, some, List, ◌∷◌, ◌++◌, map,
  if◌then◌else◌, Bool-cases, ◌==◌, nat_eq, bool_eq, pair_eq, Text, codes, text_eq,
}
use simple_api.Translate.Doc.{Doc, fields_of, slice, set_if, set_some, bool, float, str}
use simple_api.Translate.Norm.{NormRequest}
use simple_api.Translate.Helpers.{has_items}
use simple_api.Translate.Views.{field_of}
use simple_api.Translate.Anthropic.{
  build_anthropic_content, build_anthropic_message, build_anthropic_tool,
}

abbrev pub when : Bool → Doc → Option Doc → Option Doc
when b d rest = if b then some d else rest

abbrev pub float_or : Bool → Option (Option Text) → Option Doc → Option Doc
float_or true (some f) rest = some (float f)
float_or _ _ rest = rest

abbrev pub field_in : Text → List (Text × Doc) → Option Doc
unfolding field_of
field_in k fs = field_of k (fields_of fs)

field-set_if :
    (k k' : Text) (b : Bool) (d : Doc) (gs : List (Text × Doc))
    → field_in k (set_if b k' d ++ gs) ≡ when (k == k' && b) d (field_in k gs)
unfolding field_of
field-set_if k k' true d gs = elim (Bool-cases (k == k')) [ inl e ↦ rw e refl | inr e ↦ rw e refl ]
field-set_if k k' false d gs = elim (Bool-cases (k == k')) [ inl e ↦ rw e refl | inr e ↦ rw e refl ]

field-set_some :
    (k k' : Text) (o : Option (Option Text)) (gs : List (Text × Doc))
    → field_in k (set_some o k' ++ gs) ≡ float_or (k == k') o (field_in k gs)
unfolding field_of
field-set_some k k' none gs = elim (Bool-cases (k == k')) [ inl e ↦ rw e refl | inr e ↦ rw e refl ]
field-set_some k k' (some f) gs = elim (Bool-cases (k == k')) [
  | inl e ↦ rw e refl
  | inr e ↦ rw e refl
]

-- The parts of a request that may be missing, and its messages and tools.
abbrev tools_part : NormRequest → List (Text × Doc)
tools_part nr =
    set_if (has_items nr.tools) (codes "tools") (slice (map build_anthropic_tool nr.tools))

abbrev messages_part : NormRequest → List (Text × Doc)
messages_part nr =
    (codes "messages", slice (map build_anthropic_message nr.messages)) ∷ tools_part nr

last_lem :
    (k k' : Text) (b : Bool) (d : Doc) → field_in k (set_if b k' d) ≡ when (k == k' && b) d none
unfolding field_of
last_lem k k' true d = elim (Bool-cases (k == k')) [ inl e ↦ rw e refl | inr e ↦ rw e refl ]
last_lem k k' false d = elim (Bool-cases (k == k')) [ inl e ↦ rw e refl | inr e ↦ rw e refl ]

parts_lem :
    (k : Text) (nr : NormRequest)
    → field_in k (messages_part nr)
      ≡ when (k == codes "messages") (slice (map build_anthropic_message nr.messages)) (
          when
            (k == codes "tools" && has_items nr.tools)
            (slice (map build_anthropic_tool nr.tools))
            none)
unfolding field_of
parts_lem k nr =
    ap (λ t. when (k == codes "messages") (slice (map build_anthropic_message nr.messages)) t)
      (last_lem k (codes "tools") (has_items nr.tools) (slice (map build_anthropic_tool nr.tools)))

-- Each field but the first two, by its name.
pub field_lem :
    (k : Text) (nr : NormRequest)
    → field_in k (
        set_if nr.stream (codes "stream") (bool true)
        ++ (set_some nr.temperature (codes "temperature")
            ++ (set_some nr.top_p (codes "top_p")
                ++ (set_if (has_items nr.stop) (codes "stop_sequences") (slice (map str nr.stop))
                    ++ (set_if
                          (has_items nr.system)
                          (codes "system")
                          (build_anthropic_content nr.system)
                        ++ messages_part nr)))))
      ≡ when (k == codes "stream" && nr.stream) (bool true) (
          float_or (k == codes "temperature") nr.temperature (
            float_or (k == codes "top_p") nr.top_p (
              when (k == codes "stop_sequences" && has_items nr.stop) (slice (map str nr.stop)) (
                when
                  (k == codes "system" && has_items nr.system)
                  (build_anthropic_content nr.system)
                  (when (k == codes "messages") (slice (map build_anthropic_message nr.messages)) (
                    when
                      (k == codes "tools" && has_items nr.tools)
                      (slice (map build_anthropic_tool nr.tools))
                      none))))))
unfolding field_of
field_lem k nr =
    field-set_if k (codes "stream") nr.stream (bool true) _
    ∙ ap (λ t. when (k == codes "stream" && nr.stream) (bool true) t)
        (field-set_some k (codes "temperature") nr.temperature _
          ∙ ap (λ t. float_or (k == codes "temperature") nr.temperature t)
              (field-set_some k (codes "top_p") nr.top_p _
                ∙ ap (λ t. float_or (k == codes "top_p") nr.top_p t)
                    (field-set_if k (codes "stop_sequences") (has_items nr.stop)
                        (slice (map str nr.stop)) _
                      ∙ ap
                          (λ t.
                            when (k == codes "stop_sequences" && has_items nr.stop)
                              (slice (map str nr.stop)) t)
                          (field-set_if k (codes "system") (has_items nr.system)
                              (build_anthropic_content nr.system) _
                            ∙ ap
                                (λ t.
                                  when (k == codes "system" && has_items nr.system)
                                    (build_anthropic_content nr.system) t)
                                (parts_lem k nr)))))
