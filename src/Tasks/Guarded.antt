-- ===== src/Tasks/Guarded.antt =====
-- src/server.ts: the activities and the completion of an issue keep to the guards of Tasks.Guards.
use linear_agent_bridge.Base.{
  ◌≡◌, refl, Bool, true, false, not, ◌||◌, Option, none, some, List, ◌∷◌, Text, any,
}
use linear_agent_bridge.Recovery.Types.{NoticeKind}
use linear_agent_bridge.State.Types.{PendingNotice, Goal}
use linear_agent_bridge.State.Goals.{Change, block, complete, notice_sent}
use linear_agent_bridge.Tasks.Calls.{
  Content, elicitation, Signal, Act, asked_goal, named_activity, listed_activities,
  asked_notice_body, GoalDeps, return, throw_if_aborted, change, is_stopped_goal,
}
use linear_agent_bridge.Tasks.Notices.{
  create_with, emit_goal_activity, block_with_notice, goal_activity_exists, content_of_notice,
  change_of_notice, settle_notice, emit_notice, emit_if_missing, recover_pending_notice,
}
use linear_agent_bridge.Tasks.Completion.{block_and_complete}
use linear_agent_bridge.Tasks.Guards.{
  IsGuarded, Keeps, go_on-IsGuarded, Keeps->>=, if-IsGuarded, throw_when-IsGuarded, throw_when-then,
}

or_right : (a b : Bool) → (a || b) ≡ false → b ≡ false
or_right true b h = cc
or_right false b h = h

pub undenied : (b : Bool) → not b ≡ false → b ≡ true
undenied true h = refl
undenied false h = cc

module _ (deps : GoalDeps) where
  pub throw_if_aborted-Keeps : (signal : Signal) → Keeps deps (throw_if_aborted deps signal)
  throw_if_aborted-Keeps signal log h = throw_when-IsGuarded deps (deps.is_aborted log signal) log h

  pub change-Keeps : (c : Change) → Keeps deps (change deps c)
  unfolding IsGuarded
  change-Keeps c log h = h

  create_with-IsGuarded :
      (signal : Signal) (id : Text) (content : Content) (rest : List Act) (latest : Option Goal)
      → deps.get_goal rest ≡ some latest
      → is_stopped_goal latest ≡ false
      → IsGuarded deps rest
      → IsGuarded deps (create_with deps signal id content (asked_goal ∷ rest)).1
  unfolding IsGuarded
  create_with-IsGuarded signal id content rest latest got live h =
      let log = asked_goal ∷ rest in
      throw_when-then deps (deps.is_aborted log signal || deps.is_shutting_down log) _ log h (λ e. (
        (
          rest,
          latest,
          refl,
          got,
          live,
          or_right (deps.is_aborted log signal) (deps.is_shutting_down log) e,
        ),
        h,
      ))

  pub emit_goal_activity-Keeps :
      (signal : Signal) (key : Text) (content : Content)
      → Keeps deps (emit_goal_activity deps signal key content)
  unfolding emit_goal_activity IsGuarded
  emit_goal_activity-Keeps signal key content =
      Keeps->>= deps (throw_if_aborted deps signal) _ (throw_if_aborted-Keeps signal) (λ _ log h.
        go_on-IsGuarded deps (deps.get_goal log) (asked_goal ∷ log) _ h (λ goal got.
          if-IsGuarded deps (is_stopped_goal goal) (return tt) _ (asked_goal ∷ log) (λ _. h)
            (λ _.
              Keeps->>= deps (throw_if_aborted deps signal) _ (throw_if_aborted-Keeps signal)
                (λ _ later k.
                  go_on-IsGuarded deps (deps.activity_id later key) (named_activity key ∷ later) _ k
                    (λ id e.
                      let log2 = named_activity key ∷ later in
                      go_on-IsGuarded deps (deps.get_goal log2) (asked_goal ∷ log2) _ k
                        (λ latest got2.
                          if-IsGuarded deps (is_stopped_goal latest) (return tt)
                            (create_with deps signal id content) (asked_goal ∷ log2) (λ _. k)
                            (λ live.
                              create_with-IsGuarded signal id content log2 latest got2 live k))))
                (asked_goal ∷ log) h)))

  pub block_with_notice-Keeps :
      (signal : Signal) (key body : Text) (guidance : Option Text)
      → Keeps deps (block_with_notice deps signal key body guidance)
  unfolding block_with_notice
  block_with_notice-Keeps signal key body guidance =
      Keeps->>= deps (throw_if_aborted deps signal) _ (throw_if_aborted-Keeps signal) (λ _.
        Keeps->>= deps (change deps (block key body guidance)) _
          (change-Keeps (block key body guidance))
          (λ blocked.
            Keeps->>= deps (emit_goal_activity deps signal key (elicitation body)) _
              (emit_goal_activity-Keeps signal key (elicitation body))
              (λ _.
                Keeps->>= deps (change deps (notice_sent key)) _ (change-Keeps (notice_sent key))
                  (λ cleared log h. h))))

  pub block_and_complete-Keeps :
      (signal : Signal) (key body : Text) → Keeps deps (block_and_complete deps signal key body)
  unfolding block_and_complete
  block_and_complete-Keeps signal key body =
      Keeps->>= deps (block_with_notice deps signal key body none) _
        (block_with_notice-Keeps signal key body none) (λ _ log h. h)

  change_of_notice-Keeps :
      (n : PendingNotice) (kind : NoticeKind) → Keeps deps (change_of_notice deps n kind)
  change_of_notice-Keeps n NoticeKind.completion = change-Keeps complete
  change_of_notice-Keeps n NoticeKind.elicitation = change-Keeps (notice_sent n.activity_key)

  settle_notice-Keeps : (n : PendingNotice) → Keeps deps (settle_notice deps n)
  unfolding settle_notice IsGuarded
  settle_notice-Keeps n log h =
      go_on-IsGuarded deps (deps.get_goal log) (asked_goal ∷ log) _ h (λ goal got.
        if-IsGuarded deps (is_stopped_goal goal) (return tt) _ (asked_goal ∷ log) (λ _. h)
          (λ _.
            Keeps->>= deps (change_of_notice deps n n.kind) _ (change_of_notice-Keeps n n.kind)
              (λ _ later k. k) (asked_goal ∷ log) h))

  emit_notice-Keeps :
      (signal : Signal) (n : PendingNotice) (o : Option Text)
      → Keeps deps (emit_notice deps signal n o)
  unfolding emit_notice
  emit_notice-Keeps signal n none log h = h
  emit_notice-Keeps signal n (some body) log h =
      Keeps->>= deps
        (emit_goal_activity deps signal n.activity_key (content_of_notice deps n.kind body)) _
        (emit_goal_activity-Keeps signal n.activity_key (content_of_notice deps n.kind body))
        (λ _. settle_notice-Keeps n) log h

  emit_if_missing-Keeps :
      (signal : Signal) (n : PendingNotice) (there : Bool)
      → Keeps deps (emit_if_missing deps signal n there)
  unfolding emit_if_missing IsGuarded
  emit_if_missing-Keeps signal n true log h = settle_notice-Keeps n log h
  emit_if_missing-Keeps signal n false log h =
      go_on-IsGuarded deps (deps.notice_body log n.activity_key)
        (asked_notice_body n.activity_key ∷ log) _ h
        (λ o e. emit_notice-Keeps signal n o (asked_notice_body n.activity_key ∷ log) h)

  pub recover_pending_notice-Keeps :
      (signal : Signal) (o : Option PendingNotice)
      → Keeps deps (recover_pending_notice deps signal o)
  unfolding recover_pending_notice goal_activity_exists IsGuarded any
  recover_pending_notice-Keeps signal none log h = h
  recover_pending_notice-Keeps signal (some n) log h =
      Keeps->>= deps (goal_activity_exists deps n.activity_key) _
        (λ log h.
          let log1 = named_activity n.activity_key ∷ log in
          go_on-IsGuarded deps (deps.activity_id log n.activity_key) log1 _ h (λ id e.
            go_on-IsGuarded deps (deps.list_activities log1) (listed_activities ∷ log1) _ h
              (λ ids e. h)))
        (emit_if_missing-Keeps signal n) log h
