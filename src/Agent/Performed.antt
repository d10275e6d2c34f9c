-- ===== src/Agent/Performed.antt =====
-- What the work of a task ends with: performWork of worker-agent/src/workers/task-handler.ts.
use text.Mathlib.Text.{◌==◌}
use delibera_xyz.Prelude.{
  ◌≤◌, ◌≡◌, refl, ap, sym, subst, String, Bool, true, false, Option, none, some, List, inl, inr,
  arith, if◌then◌else◌, Bool-cases,
}
use delibera_xyz.Prelude.Text.{size}
use delibera_xyz.Json.{Json, null, bool, num, str, arr, obj, member, is_text}
use delibera_xyz.Host.{type_error, Prog, lift}
use delibera_xyz.Host.Ways.{
  WaysOf, TakesOf, Takes-pure, Takes-throw, Takes-lift, Takes-if, Takes-maybe, Takes-bind,
  Takes-after, Takes-emit,
}
use delibera_xyz.Agent.Services.{Services, Completion, no_completion, completion, AgentConfig}
use delibera_xyz.Agent.Voting.{AiVoteResult, read_tool_call, proof_of, read_completion, ai_vote}
use delibera_xyz.Agent.Work.{
  WorkResult, is_string, vote_value, decision_id, vote_result, perform_vote, perform_random,
  perform_other, perform_plain, perform_typed, perform_work,
}
use delibera_xyz.Agent.Writes.{Write, add_write, proof_of-Silent, decision_id-Silent}
use delibera_xyz.Agent.Ballots.{IsDecision, IsBallot, read_tool_call-Ballot, Ballot-IsSettled}

abbrev pub is_vote_type : Option Json → Bool
is_vote_type none = false
is_vote_type (some t) = is_text t "vote"

-- A vote with the value that belongs to it and a reasoning of at most 10000 characters.
pub record IsVote (r : WorkResult) : Type 0 where
  pub vote : String
  pub decision : IsDecision vote
  pub voted : r.vote ≡ some (str vote)
  pub valued : r.value ≡ vote_value vote
  pub reason : String
  pub reasoned : r.reasoning ≡ some (str reason)
  pub short : size reason ≤ 10000

-- A task to vote ends with a vote, and another with none.
abbrev pub ResultOf : Option Json → WorkResult → Type 0
ResultOf type r = if is_vote_type type then IsVote r else r.vote ≡ none

-- A value with this property, or an exception, and nothing written.
abbrev pub Kept : {A : Type 0} → (A → Type 0) → List Write → WaysOf Write A
Kept P before = ((λ a here. P a × (here ≡ before)), (λ here. here ≡ before))

abbrev pub Takes : {A : Type 0} → WaysOf Write A → List Write → Prog A → Type 0
Takes w ms m = TakesOf add_write w ms m

string_text : (j : Json) → is_string j ≡ true → (s : String) × (j ≡ str s)
string_text (str s) h = (s, refl)
string_text null h = absurd (ground (arith, h))
string_text (bool b) h = absurd (ground (arith, h))
string_text (num n) h = absurd (ground (arith, h))
string_text (arr xs) h = absurd (ground (arith, h))
string_text (obj fs) h = absurd (ground (arith, h))

module _ (V : Services) (c : AgentConfig) (before : List Write) where
  read_completion-Takes :
      (answer : Completion)
      → Takes (Kept (λ r. IsBallot r.vote r.reasoning) before) before (read_completion V answer)
  unfolding read_completion
  read_completion-Takes (no_completion p) = Takes-throw _ before p refl
  read_completion-Takes (completion id call) =
      let ballot = read_tool_call-Ballot V call in
      Takes-bind (Kept (λ b. IsBallot b.0 b.1) before) _ before (lift (read_tool_call V call)) _
        (Takes-lift _ before (read_tool_call V call) (Ballot-IsSettled _ ballot)
          (λ b e. ((rw e at ballot), refl)) refl)
        (λ b here h.
          Takes-after _ here (proof_of V id) _ (proof_of-Silent V id) h.1
            (λ proof. Takes-pure _ here _ (h.0, h.1)))
        (λ here e. e)

  ai_vote-Takes :
      (manifesto proposal : String) (context : Option String)
      → Takes
          (Kept (λ r. IsBallot r.vote r.reasoning) before)
          before
          (ai_vote V c manifesto proposal context)
  unfolding ai_vote
  ai_vote-Takes manifesto proposal context =
      Takes-maybe _ before _ _ _ (Takes-throw _ before _ refl)
        (λ key. Takes-emit _ before _ _ _ (λ answer. read_completion-Takes answer))

  vote_result-Takes :
      (config : Json) (voted : AiVoteResult)
      → IsBallot voted.vote voted.reasoning
      → Takes (Kept IsVote before) before (vote_result V c config voted)
  unfolding vote_result
  vote_result-Takes config voted h = elim (Bool-cases (is_string voted.reasoning)) [
    | inr other ↦ rw other (Takes-throw _ before type_error refl)
    | inl text ↦
        let (reason, e) = string_text voted.reasoning text in
        rw text (
          Takes-after _ before (decision_id V c config) _ (decision_id-Silent V c config) refl
            (λ id. Takes-emit _ before _ _ _ (λ _. Takes-pure _ before _ (
              record {
                vote = voted.vote;
                decision = h.0;
                voted = refl;
                valued = refl;
                reason = reason;
                reasoned = ap some e;
                short = h.1 reason e;
              },
              refl,
            ))))
  ]

  perform_vote-Takes : (config : Json) → Takes (Kept IsVote before) before (perform_vote V c config)
  unfolding perform_vote
  perform_vote-Takes config =
      Takes-if _ before _ _ _
        (Takes-emit _ before _ _ _ (λ found.
          Takes-maybe _ before _ _ _ (Takes-throw _ before _ refl) (λ manifesto.
            Takes-emit _ before _ _ _ (λ context.
              Takes-bind (Kept (λ r. IsBallot r.vote r.reasoning) before) _ before _ _
                (ai_vote-Takes manifesto.text _ context)
                (λ voted here h.
                  subst (λ ms. Takes (Kept IsVote before) ms (vote_result V c config voted))
                    (sym h.1) (vote_result-Takes config voted h.0))
                (λ here e. e)))))
        (Takes-throw _ before _ refl)

  -- A result without a vote.
  abbrev Voteless : WaysOf Write WorkResult
  Voteless = Kept (λ r. r.vote ≡ none) before

  perform_random-Takes : (config : Json) → Takes Voteless before (perform_random V c config)
  unfolding perform_random
  perform_random-Takes config = Takes-emit _ before _ _ _ (λ extra.
      Takes-emit _ before _ _ _
        (λ _. Takes-emit _ before _ _ _ (λ value. Takes-pure _ before _ (refl, refl))))

  perform_other-Takes : Takes Voteless before (perform_other V c)
  unfolding perform_other
  perform_other-Takes = Takes-emit _ before _ _ _ (λ value. Takes-pure _ before _ (refl, refl))

  perform_plain-Takes :
      (type : String) (config : Json) → Takes Voteless before (perform_plain V c type config)
  unfolding perform_plain
  perform_plain-Takes type config = elim (Bool-cases (type == "random")) [
    | inl random ↦ rw random (perform_random-Takes config)
    | inr a ↦ elim (Bool-cases (type == "count")) [
      | inl counted ↦ rw (a, counted) (Takes-pure _ before _ (refl, refl))
      | inr b ↦ elim (Bool-cases (type == "multiply")) [
        | inl multiplied ↦ rw (a, b, multiplied) (Takes-pure _ before _ (refl, refl))
        | inr d ↦ rw (a, b, d) perform_other-Takes
      ]
    ]
  ]

  perform_typed-Takes :
      (type : Option Json) (config : Json)
      → Takes (Kept (ResultOf type) before) before (perform_typed V c type config)
  unfolding perform_typed
  perform_typed-Takes none config = perform_other-Takes
  perform_typed-Takes (some (str type)) config = elim (Bool-cases (type == "vote")) [
    | inl vote ↦ rw vote (perform_vote-Takes config)
    | inr other ↦ rw other (perform_plain-Takes type config)
  ]
  perform_typed-Takes (some j) config = perform_other-Takes

  pub perform_work-Takes :
      (config : Json)
      → Takes (Kept (ResultOf (member "type" config)) before) before (perform_work V c config)
  unfolding perform_work
  perform_work-Takes null = Takes-throw _ before type_error refl
  perform_work-Takes config = perform_typed-Takes (member "type" config) config
