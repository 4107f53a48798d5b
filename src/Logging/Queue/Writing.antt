-- ===== src/Logging/Queue/Writing.antt =====
-- src/logging/LogManager.cpp: the account of all events, kept by each step of the writer.
use model_lib.Base.{
  ℕ, ◌+◌, ◌^◌, ◌≤◌, ◌<◌, ◌≡◌, refl, sym, subst, ◌∙◌, inl, inr, Bool, true, false, ◌&&◌, List, [],
  ◌∷◌, ◌++◌, arith, ◌==◌, if◌then◌else◌, length, Bool-cases,
}
use model_lib.Logging.Event.{Event}
use model_lib.Logging.Queue.{
  LogQueue, Phase, waiting, looking, gone, writing, reporting, finishing, summarizing, minus64,
  look, report, finish, fail,
}
use model_lib.Logging.Queue.World.{World, moved, broken, act}
use model_lib.Logging.Queue.Books.{
  accesses, accesses-append, length-append, in_hand, in_summary_access, in_summary_error, Books,
}
use model_lib.Logging.Queue.Accounts.{Accounted, wake-Accounted}

broken-Accounted :
    (capacity : ℕ) (events : List Event) (x y : ℕ) (w : World)
    → Books capacity w.called_access w.called_error
        (accesses w.written + accesses events + accesses w.lost)
        (length w.written + length events + length w.lost)
        w.manager
    → w.summarized_access + x + w.unsummarized_access ≡ w.manager.reported_dropped_access
    → w.summarized_error + y + w.unsummarized_error ≡ w.manager.reported_dropped_error
    → Accounted capacity (broken events x y w)
unfolding broken fail
broken-Accounted capacity events x y w b sum_access sum_error =
    let lost = length-append (w.lost ++ events) w.manager.queue in
    let here = length-append w.lost events in
    let lost_access = accesses-append (w.lost ++ events) w.manager.queue in
    let here_access = accesses-append w.lost events in
    record {
      books = record {
        access_calls = b.access_calls;
        error_calls = b.error_calls;
        accepted = omega (arith, b.accepted, lost_access, here_access);
        accepted_all = omega (arith, b.accepted_all, lost, here);
        capped = omega arith;
        reported_access = b.reported_access;
        reported_error = b.reported_error;
      };
      summaries_access = omega (arith, sum_access);
      summaries_error = omega (arith, sum_error);
    }

-- A phase in which the writer holds nothing.
abbrev Quiet : Phase → Type 0
Quiet p = (in_hand p ≡ []) × (in_summary_access p ≡ 0) × (in_summary_error p ≡ 0)

look-Quiet : (es : List Event) → Quiet (look es)
unfolding look
look-Quiet [] = (refl, refl, refl)
look-Quiet (e ∷ es) = (refl, refl, refl)

Quiet-Accounted :
    (capacity : ℕ) (p q : Phase) (w : World)
    → Accounted capacity (record w { phase = p })
    → Quiet p
    → Quiet q
    → Accounted capacity (record w { phase = q })
Quiet-Accounted capacity p q w a (hand, x, y) (hand_after, x_after, y_after) =
    let same : in_hand p ≡ in_hand q = hand ∙ sym hand_after in
    record {
      books =
          subst
            (λ es.
              Books capacity w.called_access w.called_error
                (accesses w.written + accesses es + accesses w.lost)
                (length w.written + length es + length w.lost) w.manager)
            same a.books;
      summaries_access = omega (arith, a.summaries_access, x, x_after);
      summaries_error = omega (arith, a.summaries_error, y, y_after);
    }

after-Quiet : (leaves : Bool) → Quiet (if leaves then gone else waiting)
after-Quiet true = (refl, refl, refl)
after-Quiet false = (refl, refl, refl)

finish-Accounted :
    (capacity : ℕ) (leaves : Bool) (w : World)
    → Accounted capacity (record w { phase = finishing leaves })
    → Accounted capacity (moved (finish leaves w.manager) w)
unfolding finish
finish-Accounted capacity leaves w a =
    let idle : World = record w { manager = record w.manager { writer_busy = false } } in
    let kept : Accounted capacity (record idle { phase = finishing leaves }) = record {
      books = record {
        access_calls = a.books.access_calls;
        error_calls = a.books.error_calls;
        accepted = a.books.accepted;
        accepted_all = a.books.accepted_all;
        capped = a.books.capped;
        reported_access = a.books.reported_access;
        reported_error = a.books.reported_error;
      };
      summaries_access = a.summaries_access;
      summaries_error = a.summaries_error;
    } in
    Quiet-Accounted capacity (finishing leaves) (if leaves then gone else waiting) idle kept
      (refl, refl, refl) (after-Quiet leaves)

minus64_sum :
    (d r before lost : ℕ)
    → r ≤ d
    → d < 2 ^ 64
    → before + 0 + lost ≡ r
    → before + minus64 d r + lost ≡ d
minus64_sum d r before lost below small sum = ground (arith, below, small, sum)

report-Accounted :
    (capacity : ℕ) (leaves : Bool) (w : World)
    → w.called_access + w.called_error < 2 ^ 64
    → Accounted capacity (record w { phase = reporting leaves })
    → Accounted capacity (moved (report leaves w.manager) w)
unfolding report
report-Accounted capacity leaves w small a =
    let l = w.manager in
    elim (Bool-cases (
      l.dropped_access == l.reported_dropped_access
      && l.dropped_error == l.reported_dropped_error)) [
        | inl e ↦
            let same : report leaves l ≡ (l, finishing leaves) = rw e refl in
            subst (λ r. Accounted capacity (moved r w)) (sym same)
              (Quiet-Accounted capacity (reporting leaves) (finishing leaves) w a (refl, refl, refl)
                (refl, refl, refl))
        | inr e ↦
            let fresh : LogQueue = record l {
              reported_dropped_access = l.dropped_access;
              reported_dropped_error = l.dropped_error;
            } in
            let missing_access = minus64 l.dropped_access l.reported_dropped_access in
            let missing_error = minus64 l.dropped_error l.reported_dropped_error in
            let same : report leaves l ≡ (fresh, summarizing leaves missing_access missing_error) =
              rw e refl in
            subst (λ r. Accounted capacity (moved r w)) (sym same)
              record {
                books = record {
                  access_calls = a.books.access_calls;
                  error_calls = a.books.error_calls;
                  accepted = a.books.accepted;
                  accepted_all = a.books.accepted_all;
                  capped = a.books.capped;
                  reported_access = omega arith;
                  reported_error = omega arith;
                };
                summaries_access =
                    minus64_sum l.dropped_access l.reported_dropped_access w.summarized_access
                      w.unsummarized_access a.books.reported_access
                      (omega (arith, a.books.access_calls, small)) a.summaries_access;
                summaries_error =
                    minus64_sum l.dropped_error l.reported_dropped_error w.summarized_error
                      w.unsummarized_error a.books.reported_error
                      (omega (arith, a.books.error_calls, small)) a.summaries_error;
              }
      ]

pub act-Accounted :
    (capacity : ℕ) (ok : Bool) (p : Phase) (w : World)
    → w.called_access + w.called_error < 2 ^ 64
    → Accounted capacity (record w { phase = p })
    → Accounted capacity (act ok p w)
unfolding act look report finish fail broken
act-Accounted capacity ok waiting w small a =
    wake-Accounted capacity w.manager.queue w.manager.stopping w refl a
act-Accounted capacity true (writing e) w small a = record {
  books = record {
    access_calls = a.books.access_calls;
    error_calls = a.books.error_calls;
    accepted = omega (arith, a.books.accepted, accesses-append w.written (e ∷ []));
    accepted_all = omega (arith, a.books.accepted_all, length-append w.written (e ∷ []));
    capped = a.books.capped;
    reported_access = a.books.reported_access;
    reported_error = a.books.reported_error;
  };
  summaries_access = a.summaries_access;
  summaries_error = a.summaries_error;
}
act-Accounted capacity false (writing e) w small a =
    broken-Accounted capacity (e ∷ []) 0 0 w a.books a.summaries_access a.summaries_error
act-Accounted capacity ok looking w small a =
    Quiet-Accounted capacity looking (look w.manager.queue) w a (refl, refl, refl)
      (look-Quiet w.manager.queue)
act-Accounted capacity ok (reporting leaves) w small a = report-Accounted capacity leaves w small a
act-Accounted capacity true (summarizing leaves x y) w small a = record {
  books = a.books;
  summaries_access = omega (arith, a.summaries_access);
  summaries_error = omega (arith, a.summaries_error);
}
act-Accounted capacity false (summarizing leaves x y) w small a =
    broken-Accounted capacity [] x y w a.books a.summaries_access a.summaries_error
act-Accounted capacity ok (finishing leaves) w small a = finish-Accounted capacity leaves w a
act-Accounted capacity ok gone w small a = a
