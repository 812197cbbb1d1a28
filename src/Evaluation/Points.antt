-- ===== src/Evaluation/Points.antt =====
-- The points of an answer: which were met and which are missing. The rest of
-- `EvidenceDrivenEvaluator` (src/interview_agent_runtime/evaluation/engine.py) is in the parent.
use Prim.Native.String.{◌++◌ as append_text}
use interviewer.Prelude.{
  ℕ, String, str_eq, Bool, true, false, not, ◌&&◌, ◌||◌, Option, none, some, List, [], ◌∷◌, ◌++◌,
  ltb, if◌then◌else◌, any, take, add,
}
use interviewer.Unicode.{Unicode, strip}
use interviewer.Memory.{text_length}

starts_with : String → String → Bool
starts_with String.[] s = true
starts_with (String.◌∷◌ c p) String.[] = false
starts_with (String.◌∷◌ c p) (String.◌∷◌ d s) =
    str_eq (String.◌∷◌ c "") (String.◌∷◌ d "") && starts_with p s

-- `part in text`
unfoldable pub is_part : String → String → Bool
unfolding starts_with
is_part part String.[] = str_eq part ""
is_part part (String.◌∷◌ c s) = starts_with part (String.◌∷◌ c s) || is_part part s

-- The claims whose keyword is in the text.
unfoldable pub claims_in : String → List (String × String) → List String
claims_in text [] = []
claims_in text ((keyword, claim) ∷ rules) =
    let rest = claims_in text rules in if is_part keyword text then claim ∷ rest else rest

abbrev rules_of : String → List (String × String)
rules_of dimension =
    if str_eq dimension "Java Backend"
    then ("cache aside", "理解 Cache Aside 缓存模式")
      ∷ ("缓存", "能围绕缓存场景作答")
      ∷ ("消息队列", "提到了异步补偿机制")
      ∷ ("重试", "考虑了失败重试")
      ∷ ("监控", "考虑了可观测和告警")
      ∷ ("事务", "关注事务一致性")
      ∷ []
    else if str_eq dimension "Agent Engineering"
    then ("状态机", "能用状态机控制流程")
      ∷ ("artifact", "理解结构化 Artifact 协作")
      ∷ ("blackboard", "理解 Blackboard 共享状态")
      ∷ ("工具", "考虑工具调用治理")
      ∷ ("checkpoint", "考虑中断恢复")
      ∷ ("fallback", "考虑模型失败兜底")
      ∷ []
    else if str_eq dimension "System Design"
    then ("限流", "考虑流量保护") ∷ ("降级", "考虑服务降级") ∷ ("一致性", "关注一致性权衡") ∷ ("异步", "考虑异步解耦") ∷ []
    else []

abbrev aliases_of : String → List String
aliases_of point =
    if str_eq point "工具权限" || str_eq point "工具权限控制"
    then "权限控制" ∷ "工具调用" ∷ []
    else if str_eq point "状态恢复"
    then "恢复" ∷ "checkpoint" ∷ "持久化" ∷ []
    else if str_eq point "异常处理"
    then "失败" ∷ "异常" ∷ "重试" ∷ "补偿" ∷ []
    else if str_eq point "具体做法"
    then "方案" ∷ "实现" ∷ "通过" ∷ []
    else if str_eq point "结果"
    then "结果" ∷ "验证" ∷ "监控" ∷ []
    else []

unfoldable pub add_each : List String → List String → List String
add_each result [] = result
add_each result (s ∷ ss) = add_each (add result s) ss

-- `_dedupe`
unfoldable pub dedupe : List String → List String
unfolding add_each
dedupe items = add_each [] items

abbrev one_if : Bool → String → List String
one_if b s = if b then s ∷ [] else []

module _ ⦃U : Unicode⦄ where
  -- `_point_matched`
  unfoldable pub point_matched : String → String → Bool
  unfolding is_part strip
  point_matched point text =
      is_part (strip (U.lower_text point)) text
      || any (λ alias. is_part (U.lower_text alias) text) (aliases_of point)

  -- The claims for the points that the text meets.
  unfoldable pub covered_points : String → List String → List String
  covered_points text [] = []
  covered_points text (p ∷ ps) =
      let rest = covered_points text ps in
      if not (str_eq p "") && point_matched p text then append_text "覆盖预期要点：" p ∷ rest else rest

  -- The points that the text does not meet.
  unfoldable pub uncovered_points : String → List String → List String
  uncovered_points text [] = []
  uncovered_points text (p ∷ ps) =
      let rest = uncovered_points text ps in
      if not (str_eq p "") && not (point_matched p text) then p ∷ rest else rest

  -- `_positive_claims`
  unfoldable pub positive_claims : String → String → List String → List String
  positive_claims dimension text expected_points = dedupe (
      claims_in text (rules_of dimension)
      ++ (covered_points text expected_points ++ one_if (ltb 80 (text_length text)) "回答包含一定实现细节"))

  abbrev none_in : List String → String → Bool
  none_in words text = not (any (λ w. is_part w text) words)

  abbrev dimension_points : String → String → List String
  dimension_points dimension text =
      one_if (str_eq dimension "Java Backend" && none_in ("失败" ∷ "重试" ∷ "补偿" ∷ []) text) "失败补偿策略"
      ++ (one_if (str_eq dimension "Java Backend" && none_in ("监控" ∷ "告警" ∷ []) text) "监控告警"
          ++ (one_if (str_eq dimension "Agent Engineering" && none_in ("状态" ∷ []) text) "状态控制"
              ++ (one_if (str_eq dimension "Agent Engineering" && none_in ("工具" ∷ "权限" ∷ []) text)
                    "工具权限控制"
                  ++ one_if
                      (str_eq dimension "Agent Engineering"
                        && not (is_part "checkpoint" (U.lower_text text))
                        && not (is_part "恢复" text))
                      "中断恢复")))

  -- `_missing_points`
  unfoldable pub missing_points : String → String → ℕ → List String → List String
  missing_points dimension text length expected_points = take 3 (
      dedupe (
        one_if (ltb length 40) "具体实现细节"
        ++ (uncovered_points text expected_points ++ dimension_points dimension text)))

  abbrev first_of : List String → Option String
  first_of [] = none
  first_of (s ∷ ss) = some s

  skill_named : String → List String → Option String
  skill_named claim [] = none
  skill_named claim (s ∷ ss) =
      let rest = skill_named claim ss in
      if is_part (U.lower_text s) (U.lower_text claim) then some s else rest

  abbrev or_first : Option String → List String → Option String
  or_first none skills = first_of skills
  or_first (some s) skills = some s

  -- `_claim_skill`
  unfoldable pub claim_skill : String → List String → Option String
  unfolding skill_named
  claim_skill claim related_skills = or_first (skill_named claim related_skills) related_skills
