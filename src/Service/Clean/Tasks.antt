-- ===== src/Service/Clean/Tasks.antt =====
-- A login and a task keep what the service has and sends clean.
use mathlib.Core.Path.{subst⁻¹}
use cc_be_chat_test.Common.{
  ℕ, ◌-◌, Bool-cases, Option-cases, inl, inr, Option, List, [], ◌∷◌, ◌++◌, length, ◌==◌, All,
  All-append, All-drop,
}
use cc_be_chat_test.Popular
use cc_be_chat_test.History.{get_history}
use cc_be_chat_test.History.Laws.{add_history_lem}
use cc_be_chat_test.Badwords.{WordTree}
use cc_be_chat_test.Badwords.Occurrences.{NoneIn}
use cc_be_chat_test.Service.{
  Message, net_message, auth_failed, ChatState, Task, popular_task, stats_task, record_task,
  add_client, on_auth, on_popular, on_stats, run_task, cmd_auth, get_login_time,
}
use cc_be_chat_test.Service.Serving.{Libraries}
use cc_be_chat_test.Service.Clean.{IsCleanTask, IsClean, logged_in, replied, refused}

module _ (lines : List (List ℕ)) where
  module _ (filter : WordTree) (tasks : List Task) (s : ChatState)
      (h : IsClean lines filter s tasks) where
    pub on_auth_clean :
        (json : Message → Option (List ℕ)) (unmarshal : List ℕ → Option (List ℕ))
        (marshal : List (List ℕ) → Option (List ℕ)) (now client : ℕ) (content : List ℕ)
        → IsClean lines filter (on_auth json unmarshal marshal now client content s) tasks
    unfolding on_auth
    on_auth_clean json unmarshal marshal now client content =
        elim (Option-cases (unmarshal content)) [
          | inl failed ↦
              rw (on_auth, failed)
                (refused lines filter tasks s h client (net_message json (auth_failed cmd_auth)))
          | inr (user_name, e) ↦ elim (Bool-cases (length user_name == 0)) [
            | inl empty ↦
                rw (on_auth, e, empty)
                  (refused lines filter tasks s h client (net_message json (auth_failed cmd_auth)))
            | inr named ↦
                let s' : ChatState = record s {
                  service = add_client s.service now client user_name;
                } in
                let h' = logged_in lines filter tasks s now client user_name h in
                elim (Option-cases (marshal (get_history s.history))) [
                  | inl failed ↦ rw (on_auth, e, named, failed) h'
                  | inr (text, e') ↦
                      rw (on_auth, e, named, e') (replied lines filter tasks s' h' json client text)
                ]
          ]
        ]

    pub on_popular_clean :
        (json : Message → Option (List ℕ)) (arrange : Popular.Words → Popular.Words)
        (marshal : List (List ℕ) → Option (List ℕ)) (now client : ℕ)
        → IsClean lines filter (on_popular json arrange marshal now client s) tasks
    unfolding on_popular
    on_popular_clean json arrange marshal now client =
        let words = Popular.get arrange s.popular now in
        elim (Bool-cases (length words == 0)) [
          | inl empty ↦ rw (on_popular, empty) h
          | inr some_words ↦ elim (Option-cases (marshal words)) [
            | inl failed ↦ rw (on_popular, some_words, failed) h
            | inr (text, e) ↦
                rw (on_popular, some_words, e) (replied lines filter tasks s h json client text)
          ]
        ]

    pub run_task_clean :
        (lib : Libraries) (clock : ℕ → ℕ) (t : Task)
        → IsCleanTask lines t
        → IsClean lines filter
            (run_task lib.json lib.arrange lib.marshal lib.format clock t s)
            tasks
    unfolding run_task on_stats
    run_task_clean lib clock (popular_task client) free =
        on_popular_clean lib.json lib.arrange lib.marshal (clock 0) client
    run_task_clean lib clock (stats_task client text) free =
        replied lines filter tasks s h lib.json client
          (lib.format (get_login_time s.service (clock 0) client))
    run_task_clean lib clock (record_task msg) free = record {
      dictionary = h.dictionary;
      recorded =
          let added = All-append (NoneIn lines) s.history (msg ∷ []) h.recorded (free, tt) in
          subst⁻¹ (All (NoneIn lines)) (add_history_lem s.history msg) (
            All-drop (NoneIn lines) (length (s.history ++ (msg ∷ [])) - 50)
              (s.history ++ (msg ∷ [])) added);
      sent = h.sent;
      pending = h.pending;
    }
