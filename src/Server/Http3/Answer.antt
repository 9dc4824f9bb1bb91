-- ===== src/Server/Http3/Answer.antt =====
-- The answer to a request over HTTP/3, from its head to the end of the stream.
use silent.Prelude.{ℕ, ◌≡◌, Option, some, List, [], ◌∷◌, ◌++◌, All, nat_Eq}
use silent.Text.{Text}
use silent.Server.Http3.Body.{Outcome, finished, awaiting, bailed}
use silent.Server.Http3.Send.{
  Write, head, finish, data_failed, Out, Progress, going, stopped, Limits, Frame, data_frame,
  trailers, error_frame, Exchange, pending, read_failed, answered,
}
use silent.Server.Http3.Chunks.{written, IsChunk, out_of, SendsBy, Fresh}

-- The bytes of the frames, up to one that is an error.
abbrev pub content_of : List Frame → Text
content_of [] = []
content_of (data_frame b ∷ fs) = b ++ content_of fs
content_of (trailers ∷ fs) = content_of fs
content_of (error_frame e ∷ fs) = []

-- Only a send of data that fails leaves data unsent.
abbrev pub Complete : Progress → Text → Type 0
Complete (going out) rest = rest ≡ []
Complete (stopped out data_failed) rest = Unit
Complete (stopped out _) rest = rest ≡ []

abbrev pub Framed : Limits → List Frame → Out → Option Progress → Type 0
Framed limits frames out sent =
    (p : Progress) × (sent ≡ some p)
    × SendsBy Complete limits.h3_chunk_size (content_of frames) out p
    × Fresh limits (out_of p)

-- A whole answer is the head, the content in chunks, and the end; a broken one has a first part of
-- the content.
abbrev pub Answers : ℕ → Text → ℕ → Progress → Type 0
Answers status content size (going out) =
    (ws : List Write) × (out.writes ≡ head status ∷ (ws ++ finish ∷ []))
    × (written ws ≡ content)
    × All (IsChunk size) ws
Answers status content size (stopped out e) = (rest : Text) × (written out.writes ++ rest ≡ content)

-- What comes of a request, by how the reading of its body ends.
abbrev pub EndsAs : Outcome → ℕ → Text → ℕ → Exchange → Type 0
EndsAs awaiting status content size e = e ≡ pending
EndsAs (bailed message) status content size e = e ≡ read_failed message
EndsAs finished status content size e =
    (p : Progress) × (e ≡ answered p) × Answers status content size p
