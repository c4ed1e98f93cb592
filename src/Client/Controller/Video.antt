-- ===== src/Client/Controller/Video.antt =====
-- visuara-client/src/controller.rs: `read_video_track`. The depacketizer and the decoder are parameters
-- that keep a state of their own.
use visuara.Prelude.{
  ℕ, zero, suc, ◌≡◌, refl, sym, ap, List, [], ◌∷◌, ◌++◌, Option, none, some, take,
}

-- `rtp` and the video decoder: what a payload and a NAL unit give, and the state after it. A payload
-- that is malformed and a unit that fails to decode are `none`.
pub record Codec : Type 1 where
  pub Packet : Type 0
  pub Frame : Type 0
  pub Buffer : Type 0
  pub Decoder : Type 0
  pub depacketize : Packet → Buffer → Option (List ℕ) × Buffer
  pub decode : List ℕ → Decoder → Option (Option Frame) × Decoder

module _ (codec : Codec) where
  open codec use {Packet, Frame, Buffer, Decoder, depacketize, decode}

  -- `frame_tx.send`: the window takes `room` more frames before it is closed, which ends the loop.
  sent : Option (Option Frame) → (ℕ → List Frame) → ℕ → List Frame
  sent none more room = more room
  sent (some none) more room = more room
  sent (some (some frame)) more zero = []
  sent (some (some frame)) more (suc room) = frame ∷ more room

  unpacked : Option (List ℕ) → (Decoder → ℕ → List Frame) → Decoder → ℕ → List Frame
  unpacked none more d room = more d room
  unpacked (some []) more d room = more d room
  unpacked (some (x ∷ nal)) more d room = let (o, d') = decode (x ∷ nal) d in sent o (more d') room

  -- The frames that are sent, for the packets that arrive before reading one fails.
  unfoldable pub read_video_track : List Packet → Buffer → Decoder → ℕ → List Frame
  unfolding sent unpacked
  read_video_track [] b d room = []
  read_video_track (p ∷ ps) b d room =
      let (o, b') = depacketize p b in unpacked o (read_video_track ps b') d room

  -- The two stages one after the other: the NAL units of the packets, and the frames of the units.
  whole_unit : Option (List ℕ) → List (List ℕ)
  whole_unit none = []
  whole_unit (some []) = []
  whole_unit (some (x ∷ nal)) = (x ∷ nal) ∷ []

  pub units_of : List Packet → Buffer → List (List ℕ)
  units_of [] b = []
  units_of (p ∷ ps) b = let (o, b') = depacketize p b in whole_unit o ++ units_of ps b'

  whole_frame : Option (Option Frame) → List Frame
  whole_frame none = []
  whole_frame (some none) = []
  whole_frame (some (some frame)) = frame ∷ []

  pub frames_of : List (List ℕ) → Decoder → List Frame
  frames_of [] d = []
  frames_of (nal ∷ nals) d = let (o, d') = decode nal d in whole_frame o ++ frames_of nals d'

  sent-take :
      (o : Option (Option Frame)) (more : ℕ → List Frame) (rest : List Frame) (room : ℕ)
      → ((n : ℕ) → more n ≡ take n rest)
      → sent o more room ≡ take room (whole_frame o ++ rest)
  unfolding sent whole_frame
  sent-take none more rest room h = h room
  sent-take (some none) more rest room h = h room
  sent-take (some (some frame)) more rest zero h = refl
  sent-take (some (some frame)) more rest (suc room) h = ap (◌∷◌ frame) (h room)

  unpacked-take :
      (o : Option (List ℕ)) (more : Decoder → ℕ → List Frame) (rest : List (List ℕ)) (d : Decoder)
      (room : ℕ)
      → ((e : Decoder) (n : ℕ) → more e n ≡ take n (frames_of rest e))
      → unpacked o more d room ≡ take room (frames_of (whole_unit o ++ rest) d)
  unfolding unpacked whole_unit frames_of
  unpacked-take none more rest d room h = h d room
  unpacked-take (some []) more rest d room h = h d room
  unpacked-take (some (x ∷ nal)) more rest d room h =
      let (o, d') = decode (x ∷ nal) d in
      sent-take o (more d') (frames_of rest d') room (λ n. h d' n)

  take_nil : {A : Type 0} (n : ℕ) → take {A = A} n [] ≡ []
  take_nil zero = refl
  take_nil (suc n) = refl

  -- The loop over the packets sends what the two stages give one after the other, as many frames as
  -- the window takes: packets that are malformed, units that are empty and units that fail to decode
  -- send nothing and end nothing.
  pub read_video_track-frames_of :
      (ps : List Packet) (b : Buffer) (d : Decoder) (room : ℕ)
      → read_video_track ps b d room ≡ take room (frames_of (units_of ps b) d)
  unfolding read_video_track units_of frames_of
  read_video_track-frames_of [] b d room = sym (take_nil room)
  read_video_track-frames_of (p ∷ ps) b d room =
      let (o, b') = depacketize p b in
      unpacked-take o (read_video_track ps b') (units_of ps b') d room
        (λ e n. read_video_track-frames_of ps b' e n)
