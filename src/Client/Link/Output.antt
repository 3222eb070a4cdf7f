-- ===== src/Client/Link/Output.antt =====
-- cmd/sercon/attach.go: the output of a session and its local log.
use sercon.Prelude.{
  ◌≡◌, refl, sym, ap, ◌∙◌, subst, Bool, true, ◌&&◌, not, Option, List, [], ◌∷◌, ◌++◌, append-nil,
  append_assoc, ◌==◌, maybe-intro, if-intro, if-true, Bytes, is_empty,
}
use sercon.Proto.Frame.{Frame, ReadError, type_data}
use sercon.Client.Link.{
  LocalLog, log_write, Reply, Screen, output, line, handle_message, Pumped, show_first, pump_output,
  Op, notice, error, stat, closed, pong, other,
}

-- The serial output on a screen.
abbrev pub shown_output : List Screen → Bytes
shown_output [] = []
shown_output (output p ∷ xs) = p ++ shown_output xs
shown_output (line t ∷ xs) = shown_output xs

shown_output-append : (a b : List Screen) → shown_output (a ++ b) ≡ shown_output a ++ shown_output b
shown_output-append [] b = refl
shown_output-append (output p ∷ a) b =
    ap (λ x. p ++ x) (shown_output-append a b)
    ∙ sym (append_assoc p (shown_output a) (shown_output b))
shown_output-append (line t ∷ a) b = shown_output-append a b

message_silent : (m : Reply) → shown_output (handle_message m).0 ≡ []
unfolding handle_message
message_silent m = by_op m.op m.text
  where
    by_op :
        (o : Op) (t : Bytes) → shown_output (handle_message (record { op = o; text = t })).0 ≡ []
    by_op notice t = refl
    by_op error t = refl
    by_op stat t =
        if-intro (λ xs. shown_output xs ≡ []) (not (is_empty t)) _ _ (λ _. refl) (λ _. refl)
    by_op closed t = refl
    by_op pong t = refl
    by_op other t = refl

module _ (unmarshal : Bytes → Option Reply) where
  -- What the log gains is what the screen shows of the port.
  LogsOutput : LocalLog → Pumped → Type 0
  LogsOutput l p = p.log.written ≡ l.written ++ shown_output p.screen

  -- While the local log is on, it gains exactly the serial output that the screen shows, in order and without the
  -- messages of the daemon, whatever frames come.
  pub pump_output-log :
      (writes : Bool) (l : LocalLog) (fs : List Frame) (e : ReadError)
      → (l.is_open && l.is_on) ≡ true
      → (pump_output unmarshal writes l fs e).log.written
        ≡ l.written ++ shown_output (pump_output unmarshal writes l fs e).screen
  unfolding pump_output LogsOutput log_write
  pump_output-log writes l [] e on = sym (append-nil l.written)
  pump_output-log writes l (f ∷ fs) e on =
      let P = LogsOutput l in
      let kept = record l { written = l.written ++ f.payload } in
      if-intro P (f.type == type_data) _ _
        (λ _.
          if-intro P writes _ _
            (λ _.
              let logs : log_write l f.payload ≡ kept = if-true _ _ _ on in
              subst
                (λ x. P (show_first (output f.payload ∷ []) (pump_output unmarshal writes x fs e)))
                (sym logs)
                (pump_output-log writes kept fs e on ∙ append_assoc l.written f.payload _))
            (λ _. sym (append-nil l.written)))
        (λ _.
          maybe-intro P _ _ (unmarshal f.payload) (λ _. pump_output-log writes l fs e on)
            (λ m _.
              if-intro P (handle_message m).1 _ _
                (λ _. sym (ap (λ x. l.written ++ x) (message_silent m) ∙ append-nil l.written))
                (λ _.
                  pump_output-log writes l fs e on
                  ∙ ap (λ x. l.written ++ x)
                      (sym (
                        shown_output-append (handle_message m).0 _
                        ∙ ap (λ x. x ++ shown_output (pump_output unmarshal writes l fs e).screen)
                            (message_silent m))))))
