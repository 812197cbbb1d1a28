-- ===== src/Memory/Trimming.antt =====
-- What the limit of characters does to the history.
use interviewer.Prelude.{
  ℕ, ◌+◌, ◌≤◌, ◌≡◌, ◌≢◌, ◌⊎◌, refl, ◌∙◌, sym, none, some, List, [], ◌∷◌, ◌++◌, arith, String,
  length, last?, Bool-cases, inl, inr, ltb,
}
use interviewer.Floats.{Floats}
use interviewer.Memory.{
  AgentMessage, InterviewMemorySnapshot, MemoryContext, size, total_size, domain_messages,
  history_messages, trim, keep_message, to_messages,
}

module _ ⦃F : Floats⦄ where
  -- The first list is the second one with messages left out.
  pub data IsPartOf : List AgentMessage → List AgentMessage → Type 0 where
    done : IsPartOf [] []
    kept :
        {m : AgentMessage} {xs ys : List AgentMessage} → IsPartOf xs ys → IsPartOf (m ∷ xs) (m ∷ ys)
    left_out :
        {m : AgentMessage} {xs ys : List AgentMessage} → IsPartOf xs ys → IsPartOf xs (m ∷ ys)

  -- Of the history a part is kept, in its order; the newest message always is; and it fits within
  -- the limit, together with `used` characters before it, unless it is one message only.
  pub record IsTrimmed (limit used : ℕ) (all some_of : List AgentMessage) : Type 0 where
    pub in_order : IsPartOf some_of all
    pub newest : last? some_of ≡ last? all
    pub fits : (used + total_size some_of ≤ limit) ⊎ (length some_of ≤ 1)

  some_last : (x : AgentMessage) (ms : List AgentMessage) → last? (x ∷ ms) ≢ none
  some_last x [] = λ h. cc
  some_last x (y ∷ ms) = some_last y ms

  last_cons :
      (m : AgentMessage) (k : AgentMessage) (ks ms : List AgentMessage)
      → IsPartOf (k ∷ ks) ms
      → last? (m ∷ ms) ≡ last? ms
  last_cons m k ks [] p = elim p [ ]
  last_cons m k ks (x ∷ ms) p = refl

  last_of_none :
      (m : AgentMessage) (ms : List AgentMessage)
      → last? {A = AgentMessage} [] ≡ last? ms
      → last? (m ∷ ms) ≡ some m
  last_of_none m [] h = refl
  last_of_none m (x ∷ ms) h = absurd (some_last x ms (sym h))

  keep_message-IsTrimmed :
      (limit used u : ℕ) (m : AgentMessage) (ms some_of : List AgentMessage)
      → u ≡ used + total_size some_of
      → IsTrimmed limit used ms some_of
      → IsTrimmed limit used (m ∷ ms) (keep_message limit m some_of u).0
  unfolding keep_message
  keep_message-IsTrimmed limit used u m ms [] e t = record {
    in_order = kept t.in_order;
    newest = sym (last_of_none m ms t.newest);
    fits = inr (omega arith);
  }
  keep_message-IsTrimmed limit used u m ms (k ∷ ks) e t =
      elim (Bool-cases (ltb limit (u + size m))) [
        | inl big ↦ rw big (record {
          in_order = left_out t.in_order;
          newest = t.newest ∙ sym (last_cons m k ks ms t.in_order);
          fits = t.fits;
        })
        | inr small ↦ rw small (record {
          in_order = kept t.in_order;
          newest = t.newest ∙ sym (last_cons m k ks ms t.in_order);
          fits = inl (ground arith);
        })
      ]

  keep_message-used :
      (limit used u : ℕ) (m : AgentMessage) (some_of : List AgentMessage)
      → u ≡ used + total_size some_of
      → (keep_message limit m some_of u).1 ≡ used + total_size (keep_message limit m some_of u).0
  unfolding keep_message
  keep_message-used limit used u m some_of e = ground arith

  trim-used :
      (limit used : ℕ) (ms : List AgentMessage)
      → (trim limit used ms).1 ≡ used + total_size (trim limit used ms).0
  unfolding trim
  trim-used limit used [] = omega arith
  trim-used limit used (m ∷ ms) = keep_message-used limit used _ m _ (trim-used limit used ms)

  trim-IsTrimmed :
      (limit used : ℕ) (ms : List AgentMessage) → IsTrimmed limit used ms (trim limit used ms).0
  unfolding trim
  trim-IsTrimmed limit used [] = record { in_order = done; newest = refl; fits = inr (omega arith) }
  trim-IsTrimmed limit used (m ∷ ms) =
      keep_message-IsTrimmed limit used _ m ms _ (trim-used limit used ms)
        (trim-IsTrimmed limit used ms)

  -- Under a limit the messages are those of the domain, all of them, and then a part of the
  -- history in its order, with its newest message; together they fit within the limit, unless at
  -- most one message of the history is there.
  pub to_messages-IsTrimmed :
      (dumps : InterviewMemorySnapshot → String) (id : String) (now : ℕ) (c : MemoryContext)
      (limit : ℕ)
      → let domain = domain_messages dumps id now c.domain_snapshot in
        (some_of : List AgentMessage) × (to_messages dumps id now c (some limit)
          ≡ domain ++ some_of)
        × IsTrimmed limit (total_size domain) (history_messages c) some_of
  unfolding to_messages
  to_messages-IsTrimmed dumps id now c limit =
      (_, refl, trim-IsTrimmed limit _ (history_messages c))
