-- ===== src/Examples/NoGap/Task.antt =====
-- The task of examples/mjpeg_stream.rs that reads the camera: what it keeps true of the last frame.
use bambu_rs.Prelude.{
  ◌≡◌, refl, sym, ap, ◌∙◌, subst, Bool, true, false, some, inl, inr, [], ◌∷◌, ◌++◌, arith, Bytes,
  length, length-append,
}
use bambu_rs.Camera.Codec.{auth, jpeg}
use bambu_rs.Examples.Mjpeg.{
  Camera, reading, storing, sending, finished, crashed, AppState, Item, packet, failure, closed,
  Action, next, store, send, subscribe, open_body, leave_frame, hang_up, elsewhere, is_free, handle,
  remember, broadcast, act,
}
use bambu_rs.Examples.NoGap.{
  IsLatest, IsValid, Follows, get_elem?-append_length, SentSince-append, Follows-refl,
  Follows-camera, reading-sending, storing-sending, Follows-if, IsValid-if, IsLatest-Follows,
  camera-IsValid, sending-stored,
}

module _ (read_header : Bytes → Bool) where
  handle-Follows :
      (item : Item) (s : AppState) → s.camera ≡ reading → Follows s (handle read_header item s)
  unfolding handle
  handle-Follows (packet (auth username access_code)) s e =
      Follows-camera crashed s (λ frame q. reading-sending frame s e q)
  handle-Follows (packet (jpeg frame)) s e =
      Follows-if s (read_header frame) _ _
        (Follows-camera (storing frame) s (λ g q. reading-sending g s e q)) (Follows-refl s)
  handle-Follows failure s e = Follows-refl s
  handle-Follows closed s e = Follows-camera finished s (λ frame q. reading-sending frame s e q)

  remember-Follows :
      (frame : Bytes) (s : AppState)
      → s.camera ≡ storing frame
      → Follows s (remember read_header frame s)
  unfolding remember
  remember-Follows frame s e =
      Follows-if s (is_free s.viewer s.holders) _ _
        (record {
          same_viewer = refl;
          longer = omega arith;
          recent = λ g from h r. elim r [ inl q ↦ inl q | inr q ↦ storing-sending g frame s e q ];
        })
        (Follows-refl s)

  broadcast-Follows :
      (listened : Bool) (frame : Bytes) (s : AppState)
      → s.camera ≡ sending frame
      → Follows s (broadcast read_header listened frame s)
  unfolding broadcast
  broadcast-Follows true frame s e = record {
    same_viewer = refl;
    longer = omega (arith, length-append s.sent (frame ∷ []));
    recent = λ g from h r. elim r [
      | inl q ↦ inl (SentSince-append g frame from s.sent q)
      | inr (inl q, l) ↦
          let same_frame : frame ≡ g = cc in
          inl
            (length s.sent, omega arith, get_elem?-append_length s.sent frame ∙ ap some same_frame)
      | inr (inr q, l) ↦ cc
    ];
  }
  broadcast-Follows false frame s e = Follows-camera finished s (λ g q. (inr refl, q.1))

  handle-IsValid :
      (item : Item) (s : AppState)
      → s.camera ≡ reading
      → IsValid s
      → IsValid (handle read_header item s)
  unfolding handle
  handle-IsValid (packet (auth username access_code)) s e v = camera-IsValid crashed s e tt v
  handle-IsValid (packet (jpeg frame)) s e v =
      IsValid-if (read_header frame) _ _ (camera-IsValid (storing frame) s e tt v) v
  handle-IsValid failure s e v = v
  handle-IsValid closed s e v = camera-IsValid finished s e tt v

  remember-IsValid :
      (frame : Bytes) (s : AppState) → IsValid s → IsValid (remember read_header frame s)
  unfolding remember
  remember-IsValid frame s v =
      IsValid-if (is_free s.viewer s.holders) _ _
        (record { latest = inr (inl refl, refl); stored = refl }) v

  broadcast-IsValid :
      (listened : Bool) (frame : Bytes) (s : AppState)
      → s.camera ≡ sending frame
      → IsValid s
      → IsValid (broadcast read_header listened frame s)
  unfolding broadcast
  broadcast-IsValid true frame s e v = record {
    latest =
        subst (λ l. IsLatest l (record s { sent = s.sent ++ frame ∷ []; camera = reading }))
          (sym (sending-stored frame s e v))
          (inl (
            length s.sent,
            omega (arith, length-append s.sent (frame ∷ [])),
            get_elem?-append_length s.sent frame,
          ));
    stored = tt;
  }
  broadcast-IsValid false frame s e v = record {
    latest = IsLatest-Follows s.last_frame s _ (broadcast-Follows false frame s e) refl v.latest;
    stored = tt;
  }

  pub act-Follows :
      (camera : Camera) (a : Action) (s : AppState)
      → s.camera ≡ camera
      → Follows s (act read_header camera a s)
  unfolding act
  act-Follows reading (next item) s e = handle-Follows item s e
  act-Follows (storing frame) store s e = remember-Follows frame s e
  act-Follows (sending frame) (send listened) s e = broadcast-Follows listened frame s e
  act-Follows reading store s e = Follows-refl s
  act-Follows reading (send listened) s e = Follows-refl s
  act-Follows reading subscribe s e = Follows-refl s
  act-Follows reading open_body s e = Follows-refl s
  act-Follows reading leave_frame s e = Follows-refl s
  act-Follows reading hang_up s e = Follows-refl s
  act-Follows reading (elsewhere g) s e = Follows-refl s
  act-Follows (storing frame) (next item) s e = Follows-refl s
  act-Follows (storing frame) (send listened) s e = Follows-refl s
  act-Follows (storing frame) subscribe s e = Follows-refl s
  act-Follows (storing frame) open_body s e = Follows-refl s
  act-Follows (storing frame) leave_frame s e = Follows-refl s
  act-Follows (storing frame) hang_up s e = Follows-refl s
  act-Follows (storing frame) (elsewhere g) s e = Follows-refl s
  act-Follows (sending frame) (next item) s e = Follows-refl s
  act-Follows (sending frame) store s e = Follows-refl s
  act-Follows (sending frame) subscribe s e = Follows-refl s
  act-Follows (sending frame) open_body s e = Follows-refl s
  act-Follows (sending frame) leave_frame s e = Follows-refl s
  act-Follows (sending frame) hang_up s e = Follows-refl s
  act-Follows (sending frame) (elsewhere g) s e = Follows-refl s
  act-Follows finished (next item) s e = Follows-refl s
  act-Follows finished store s e = Follows-refl s
  act-Follows finished (send listened) s e = Follows-refl s
  act-Follows finished subscribe s e = Follows-refl s
  act-Follows finished open_body s e = Follows-refl s
  act-Follows finished leave_frame s e = Follows-refl s
  act-Follows finished hang_up s e = Follows-refl s
  act-Follows finished (elsewhere g) s e = Follows-refl s
  act-Follows crashed (next item) s e = Follows-refl s
  act-Follows crashed store s e = Follows-refl s
  act-Follows crashed (send listened) s e = Follows-refl s
  act-Follows crashed subscribe s e = Follows-refl s
  act-Follows crashed open_body s e = Follows-refl s
  act-Follows crashed leave_frame s e = Follows-refl s
  act-Follows crashed hang_up s e = Follows-refl s
  act-Follows crashed (elsewhere g) s e = Follows-refl s

  pub act-IsValid :
      (camera : Camera) (a : Action) (s : AppState)
      → s.camera ≡ camera
      → IsValid s
      → IsValid (act read_header camera a s)
  unfolding act
  act-IsValid reading (next item) s e v = handle-IsValid item s e v
  act-IsValid (storing frame) store s e v = remember-IsValid frame s v
  act-IsValid (sending frame) (send listened) s e v = broadcast-IsValid listened frame s e v
  act-IsValid reading store s e v = v
  act-IsValid reading (send listened) s e v = v
  act-IsValid reading subscribe s e v = v
  act-IsValid reading open_body s e v = v
  act-IsValid reading leave_frame s e v = v
  act-IsValid reading hang_up s e v = v
  act-IsValid reading (elsewhere g) s e v = v
  act-IsValid (storing frame) (next item) s e v = v
  act-IsValid (storing frame) (send listened) s e v = v
  act-IsValid (storing frame) subscribe s e v = v
  act-IsValid (storing frame) open_body s e v = v
  act-IsValid (storing frame) leave_frame s e v = v
  act-IsValid (storing frame) hang_up s e v = v
  act-IsValid (storing frame) (elsewhere g) s e v = v
  act-IsValid (sending frame) (next item) s e v = v
  act-IsValid (sending frame) store s e v = v
  act-IsValid (sending frame) subscribe s e v = v
  act-IsValid (sending frame) open_body s e v = v
  act-IsValid (sending frame) leave_frame s e v = v
  act-IsValid (sending frame) hang_up s e v = v
  act-IsValid (sending frame) (elsewhere g) s e v = v
  act-IsValid finished (next item) s e v = v
  act-IsValid finished store s e v = v
  act-IsValid finished (send listened) s e v = v
  act-IsValid finished subscribe s e v = v
  act-IsValid finished open_body s e v = v
  act-IsValid finished leave_frame s e v = v
  act-IsValid finished hang_up s e v = v
  act-IsValid finished (elsewhere g) s e v = v
  act-IsValid crashed (next item) s e v = v
  act-IsValid crashed store s e v = v
  act-IsValid crashed (send listened) s e v = v
  act-IsValid crashed subscribe s e v = v
  act-IsValid crashed open_body s e v = v
  act-IsValid crashed leave_frame s e v = v
  act-IsValid crashed hang_up s e v = v
  act-IsValid crashed (elsewhere g) s e v = v
