-- ===== src/Workers/Following/Preserved.antt =====
-- Every step keeps `IsFollowing`.
use garuda_codec.Base.{
  ℕ, ◌<◌, ◌≡◌, refl, sym, Bool, true, false, List, [], ◌∷◌, ◌++◌, append_assoc, append-nil, ◌⊎◌,
  inl, inr,
}
use garuda_codec.Merge.{done}
use garuda_codec.Workers.{
  Pool, State, Step, Reach, ended, update, update_other, read_item, dispatch, dispatch_refused,
  input_ends, stopped, read_fails, take_item, work_fails, emit, emit_refused, worker_ends, write,
  write_fails, forwarder_ends, started, here, later,
}
use garuda_codec.Workers.Following.{Each-kept}
use garuda_codec.Workers.Following.Sent.{Trace, true_false, dispatch_Trace, end_Trace}
use garuda_codec.Workers.Following.Working.{stop_Trace, take_Trace, emit_Trace}

module _ {X Y S : Type 0} (pool : Pool X Y S) (items : List X) where
  write_Trace :
      (s : State X Y S) (y : Y) (rest : List Y)
      → s.forwarding ≡ true
      → s.collected ≡ y ∷ rest
      → Trace pool items s
      → Trace pool items (record s { collected = rest; written = s.written ++ (y ∷ []) })
  write_Trace s y rest live e i =
      let f = i.following in
      record {
        sent = i.sent;
        emitted = i.emitted;
        lost = i.lost;
        following = record {
          read = f.read;
          merged = rw append_assoc (rw e at f.merged);
          only_lost = f.only_lost;
          none_lost = f.none_lost;
          none_collected = λ c. true_false s.forwarding live c;
          each = f.each;
          all_read = f.all_read;
          closed = λ g c. true_false s.forwarding live c;
        };
      }

  -- The forwarder ends, with what is in its queue.
  close_Trace :
      (s : State X Y S) (left : List Y) (failed output_failed : Bool)
      → left ≡ []
      → (failed ≡ false → s.failed ≡ false)
      → s.forwarding ≡ true
      → (failed ≡ false → (s.collected ≡ []) × ((q : ℕ) → q < pool.workers → s.worker q ≡ ended))
      → (s.collected ≡ []) ⊎ (output_failed ≡ true)
      → Trace pool items s
      → Trace pool items (record s {
        collected = left;
        forwarding = false;
        failed = failed;
        output_failed = output_failed;
      })
  close_Trace s left failed output_failed none_left hf live clean fault i =
      let f = i.following in
      let t : State X Y S = record s {
        collected = left;
        forwarding = false;
        failed = failed;
        output_failed = output_failed;
      } in
      record {
        sent = i.sent;
        emitted = i.emitted;
        lost = s.collected;
        following = record {
          read = f.read;
          merged = rw none_left (rw (f.none_lost live, append-nil) at f.merged);
          only_lost = fault;
          none_lost = λ g. cc;
          none_collected = λ c. none_left;
          each = Each-kept pool s t i.sent i.emitted refl refl hf (λ d. d) f.each;
          all_read = λ d g. f.all_read d (hf g);
          closed = λ g c. clean g;
        };
      }

  step_Trace : {s t : State X Y S} → Step pool s t → Trace pool items s → Trace pool items t
  step_Trace (read_item {s = s} x rest d r e) i = record {
    sent = i.sent;
    emitted = i.emitted;
    lost = i.lost;
    following = record {
      read = i.following.read;
      merged = i.following.merged;
      only_lost = i.following.only_lost;
      none_lost = i.following.none_lost;
      none_collected = i.following.none_collected;
      each = i.following.each;
      all_read = i.following.all_read;
      closed = i.following.closed;
    };
  }
  step_Trace (dispatch {s = s} x rest q st pending d r e k h w room) i =
      dispatch_Trace pool items s x rest q st pending d e k h w i
  step_Trace (dispatch_refused {s = s} x rest q d r e k h w) i =
      end_Trace pool items s s.failed s.interrupted (λ g. g)
        (λ g _.
          let (more, made, clean) = rw w at (i.following.each q h) in
          true_false s.dispatching d (clean g).1)
        i
  step_Trace (input_ends {s = s} d r e) i =
      end_Trace pool items s s.failed s.interrupted (λ g. g) (λ g k. e) i
  step_Trace (stopped {s = s} d r) i = end_Trace pool items s s.failed true (λ g. g) (λ g k. cc) i
  step_Trace (read_fails {s = s} d r) i =
      end_Trace pool items s true s.interrupted (λ g. cc) (λ g. cc) i
  step_Trace (take_item {s = s} q st st' x rest made h w e m) i =
      take_Trace pool items s q st st' x rest made h w e m i
  step_Trace (work_fails {s = s} q st x rest h w e m) i =
      stop_Trace pool items s q (update q [] s.queue) st [] true (λ g. cc)
        (λ j k. sym (update_other q j [] s.queue k)) h w (λ g. cc) i
  step_Trace (emit {s = s} q st y pending h w f room) i =
      emit_Trace pool items s q st y pending h w f i
  step_Trace (emit_refused {s = s} q st y pending h w f) i =
      stop_Trace pool items s q (update q [] s.queue) st (y ∷ pending) s.failed (λ g. g)
        (λ j k. sym (update_other q j [] s.queue k)) h w
        (λ g. let a = (i.following.closed g f).1 q h in cc) i
  step_Trace (worker_ends {s = s} q st h w e d) i =
      stop_Trace pool items s q s.queue st [] s.failed (λ g. g) (λ j k. refl) h w
        (λ g. (rw e refl, d)) i
  step_Trace (write {s = s} y rest f e) i = write_Trace s y rest f e i
  step_Trace (write_fails {s = s} y rest f e) i =
      close_Trace s [] true true refl (λ g. cc) f (λ g. cc) (inr refl) i
  step_Trace (forwarder_ends {s = s} f e all) i =
      close_Trace s s.collected s.failed s.output_failed e (λ g. g) f (λ g. (e, all)) (inl e) i

  started-Trace : Trace pool items (started pool items)
  started-Trace = record {
    sent = [];
    emitted = λ q. [];
    lost = [];
    following = record {
      read = refl;
      merged = done (λ q h. refl);
      only_lost = inl refl;
      none_lost = λ g. refl;
      none_collected = λ c. cc;
      each = λ q h more. refl;
      all_read = λ d. cc;
      closed = λ g c. cc;
    };
  }

  pub Reach-Trace : {s : State X Y S} → Reach pool (started pool items) s → Trace pool items s
  Reach-Trace r = go r started-Trace
    where
      go : {s t : State X Y S} → Reach pool s t → Trace pool items s → Trace pool items t
      go here i = i
      go (later r step) i = step_Trace step (go r i)
