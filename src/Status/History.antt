-- ===== src/Status/History.antt =====
-- The histories of a status under any calls that write them.
use radondb_clickhouse_opera.Base.{
  ℕ, zero, suc, ◌≤◌, ◌≡◌, refl, sym, ap, subst, ◌∙◌, String, inl, inr, List, [], ◌∷◌, ◌++◌, arith,
}
use radondb_clickhouse_opera.Base.Tests.{ltb, Bool-cases}
use radondb_clickhouse_opera.Base.Lists.{length}
use radondb_clickhouse_opera.Status.{
  ChiStatus, take, push, push_action, set_and_push_error, push_task_id_started,
  push_task_id_completed, reconcile_update_start, reconcile_create_start, reconcile_complete,
  running, reconcile_create_failed, reconcile_update_failed, delete_start,
}

-- the calls that write a status
pub data Call : Type 0 where
  call_push_action call_set_and_push_error : String → Call
  call_update_start call_create_start : ℕ → Call
  call_complete call_running call_create_failed call_update_failed call_delete_start : Call

abbrev pub perform : Call → ChiStatus → ChiStatus
perform (call_push_action a) s = push_action a s
perform (call_set_and_push_error e) s = set_and_push_error e s
perform (call_update_start n) s = reconcile_update_start n s
perform (call_create_start n) s = reconcile_create_start n s
perform call_complete s = reconcile_complete s
perform call_running s = running s
perform call_create_failed s = reconcile_create_failed s
perform call_update_failed s = reconcile_update_failed s
perform call_delete_start s = delete_start s

abbrev pub perform_all : List Call → ChiStatus → ChiStatus
perform_all [] s = s
perform_all (c ∷ cs) s = perform_all cs (perform c s)

pub data History : Type 0 where
  of_actions of_errors of_started of_completed : History

abbrev pub history : History → ChiStatus → List String
history of_actions s = s.actions
history of_errors s = s.errors
history of_started s = s.task_ids_started
history of_completed s = s.task_ids_completed

-- what a call pushes, when the status has the task id
abbrev pub pushed : History → String → Call → List String
pushed of_actions id (call_push_action a) = a ∷ []
pushed of_errors id (call_set_and_push_error e) = e ∷ []
pushed of_started id (call_update_start n) = id ∷ []
pushed of_started id (call_create_start n) = id ∷ []
pushed of_started id call_delete_start = id ∷ []
pushed of_completed id call_complete = id ∷ []
pushed h id c = []

-- everything that the calls push, the newest first, before the older entries
abbrev pub pushed_all : History → String → List Call → List String → List String
pushed_all h id [] older = older
pushed_all h id (c ∷ cs) older = pushed_all h id cs (pushed h id c ++ older)

take_all : (n : ℕ) (xs : List String) → length xs ≤ n → take n xs ≡ xs
take_all zero [] h = refl
take_all zero (x ∷ xs) h = ground arith
take_all (suc n) [] h = refl
take_all (suc n) (x ∷ xs) h = ap (λ ys. x ∷ ys) (take_all n xs (omega arith))

take_less : (n : ℕ) (xs : List String) → take n (take (suc n) xs) ≡ take n xs
take_less zero xs = refl
take_less (suc n) [] = refl
take_less (suc n) (x ∷ xs) = ap (λ ys. x ∷ ys) (take_less n xs)

length-take : (n : ℕ) (xs : List String) → length (take n xs) ≤ n
length-take zero xs = omega arith
length-take (suc n) [] = omega arith
length-take (suc n) (x ∷ xs) = omega (arith, length-take n xs)

push-take : (n : ℕ) (x : String) (xs : List String) → push n x xs ≡ take n (x ∷ xs)
unfolding push
push-take n x xs = elim (Bool-cases (ltb n (length (x ∷ xs)))) [
  | inl e ↦ rw e refl
  | inr e ↦ rw e (sym (take_all n (x ∷ xs) (ground arith)))
]

-- Pushing on a cut history gives the cut of the whole history.
push-cut :
    (n : ℕ) (x : String) (xs : List String)
    → push (suc n) x (take (suc n) xs) ≡ take (suc n) (x ∷ xs)
push-cut n x xs = push-take (suc n) x (take (suc n) xs) ∙ ap (λ ys. x ∷ ys) (take_less n xs)

task_id-perform : (c : Call) (s : ChiStatus) → (perform c s).task_id ≡ s.task_id
unfolding push_action set_and_push_error push_task_id_started push_task_id_completed
    reconcile_update_start reconcile_create_start reconcile_complete running reconcile_create_failed
    reconcile_update_failed delete_start
task_id-perform (call_push_action a) s = refl
task_id-perform (call_set_and_push_error e) s = refl
task_id-perform (call_update_start n) s = refl
task_id-perform (call_create_start n) s = refl
task_id-perform call_complete s = refl
task_id-perform call_running s = refl
task_id-perform call_create_failed s = refl
task_id-perform call_update_failed s = refl
task_id-perform call_delete_start s = refl

-- a history is either left as it is, or the pushed entry is pushed
history-perform :
    (h : History) (c : Call) (s : ChiStatus) (older : List String)
    → history h s ≡ take 100 older
    → history h (perform c s) ≡ take 100 (pushed h s.task_id c ++ older)
unfolding push_action set_and_push_error push_task_id_started push_task_id_completed
    reconcile_update_start reconcile_create_start reconcile_complete running reconcile_create_failed
    reconcile_update_failed delete_start
history-perform of_actions (call_push_action a) s older e = ap (push 100 a) e ∙ push-cut 99 a older
history-perform of_errors (call_set_and_push_error a) s older e =
    ap (push 100 a) e ∙ push-cut 99 a older
history-perform of_started (call_update_start n) s older e =
    ap (push 100 s.task_id) e ∙ push-cut 99 s.task_id older
history-perform of_started (call_create_start n) s older e =
    ap (push 100 s.task_id) e ∙ push-cut 99 s.task_id older
history-perform of_started call_delete_start s older e =
    ap (push 100 s.task_id) e ∙ push-cut 99 s.task_id older
history-perform of_completed call_complete s older e =
    ap (push 100 s.task_id) e ∙ push-cut 99 s.task_id older
history-perform h c s older e = e

history-perform_all :
    (h : History) (cs : List Call) (s : ChiStatus) (older : List String)
    → history h s ≡ take 100 older
    → history h (perform_all cs s) ≡ take 100 (pushed_all h s.task_id cs older)
history-perform_all h [] s older e = e
history-perform_all h (c ∷ cs) s older e =
    history-perform_all h cs (perform c s) (pushed h s.task_id c ++ older)
      (history-perform h c s older e)
    ∙ ap (λ id. take 100 (pushed_all h id cs (pushed h s.task_id c ++ older))) (task_id-perform c s)

-- Whatever calls write a status whose history has at most a hundred entries, the history has the
-- newest hundred of what was pushed and of the older entries, newest first.
pub history-perform_all_cut :
    (h : History) (cs : List Call) (s : ChiStatus)
    → length (history h s) ≤ 100
    → (history h (perform_all cs s) ≡ take 100 (pushed_all h s.task_id cs (history h s)))
      × (length (history h (perform_all cs s)) ≤ 100)
history-perform_all_cut h cs s l =
    let e = history-perform_all h cs s (history h s) (sym (take_all 100 (history h s) l)) in
    (e, subst (λ xs. length xs ≤ 100) (sym e) (length-take 100 _))
