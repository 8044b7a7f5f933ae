-- ===== src/Lib.antt =====
-- Verification library of the browser half of chanx-kit: the framework-free state of each UI kit
-- under ui/, the code that applications copy into their own sources (sandbox/ui/src/chanx-kit and
-- templates/fastapi-react/web/src/chanx-kit hold copies of it). The WebSocket client
-- `@chanx-js/client` joins topics and calls a kit's `on` handlers with the messages of the topic; a
-- kit turns them into a snapshot, and tells the listeners that subscribed.
--
-- Shared by all parts:
--   Prelude: Boolean tests, text (equality, truth and UTF-16 order of JavaScript strings), lists and
--     items with keys, and `Unknown`, the values that the program only passes on. An object's key of
--     type `T | null` that may be left out is a `Field`, and a key that may be left out an `Option`.
--   Store: `listeners`, `snapshot`, `subscribe` and `publish`, which each core.ts repeats. A listener
--     is its identity, and `told` lists the calls of listeners with the snapshot that each one reads.
--     A listener that publishes again while it is called is not modelled.
--   Controller: what a `connect…` function asks of the controller of the client library, namely to join
--     its topics, to leave them and to send. What the controller does on these calls is not modelled, nor
--     how it comes to call a handler: the messages of a topic are arguments. Each kit's `Connect` is its
--     `connect…` function.
-- The parts:
--   Notification.Contract, Notification.Feed: ui/notification/contract.ts, and
--     `createNotificationFeed` of ui/notification/core.ts (handlers, `ackAll`, `dismiss`).
--   Presence.Contract, Presence.Roster: ui/presence/contract.ts and `createPresenceRoster`.
--   Chat.Contract, Chat.Log: ui/chat/contract.ts, `createChatLog`, `chatSend`, `chatBacklogRequest`.
--   Transcriber.Contract, Transcriber.Utterances: ui/transcriber/contract.ts and `createTranscript`.
--   Transcriber.Attempts, Transcriber.Recorder: `createRecorder` of ui/transcriber/core.ts.
--     Recorder.Steps has the runs that the user, the server and the microphones of several starts can
--     make; Recorder.Messages has what the server accepts. The encoder of a chunk is a parameter there.
--   Transcriber.Capture: the worklet `ChanxCapture` of ui/transcriber/microphone.ts.
--     Transcriber.Microphone: `openMicrophone`, on the worklet's blocks and the browser's answers.
--   Audio.Chunker, Audio.Resampler, Audio.Pcm, Audio.Base64: the classes `Chunker` and `Resampler`, and
--     `toPcm16`, `fromPcm16`, `toBase64`, `fromBase64` of ui/audio/core.ts. A sample is any value in
--     Audio.Resampler and a fraction in Audio.Pcm; a position of the resampler is exact. The browser's
--     own encoders are parameters; Audio.Base64.Standard has a browser of which the hypotheses hold.
--   Player.Contract, Player.Playback: ui/player/contract.ts, and the worklet `ChanxPlayback` of
--     ui/player/speaker.ts. Player.Tracks, Player.Handlers: `createPlayer` of ui/player/core.ts, its
--     utterances and marks, and its handlers and methods. Decoding and resampling are a parameter
--     there, which Player.Sounds fills by the audio helpers. Player.Speaker: `openSpeaker`, the audio
--     output around the worklet. The clock does not go backwards: a time since a mark is a subtraction
--     that stops at 0.
--   AgUi.Contract: ui/ag-ui/contract.ts. AgUi.Messages: how `createAgentThread` of ui/ag-ui/core.ts
--     assembles messages (`upsert`, `appendText`, `startToolCall`, `appendArgs`). AgUi.Thread: the
--     thread and its events (`apply`). AgUi.Requests: `run` and `cancel`. What `newId` returns is an
--     argument of the operation that calls it.
--   VoiceAgent: `voiceStatus` and `connectVoiceAgent` of ui/voice-agent/core.ts, on the connected
--     transcriber, player and thread. VoiceAgent.Runs has all that can happen to it.
-- Each kit's module has children that prove its properties and a module `Tests` with runs and with
-- the theorems at concrete inputs.
--
-- Numbers are natural: counts, sizes and times in milliseconds, as the servers send them; a limit is
-- not negative. Loops are recursions on lists or on the rounds left, but four take fuel: `cut` of
-- Audio.Chunker the length of what it cuts, `fill` of Player.Playback one round more than there are
-- blocks, `walk` of Audio.Resampler the length of the block in parts of a sample, and `join_slices` of
-- Audio.Base64 the number of bytes. `cut_lem`, `fill-Fills`, `walk_stops` and `join_slices_all` are
-- about these. Random ids are arguments.
--
-- Not modelled: the client library, React hooks and components, the level meter, and the rounding
-- of floats.
pub mod Prelude
pub mod Controller
pub mod Store
pub mod Notification
pub mod Presence
pub mod Chat
pub mod Transcriber
pub mod Audio
pub mod Player
pub mod AgUi
pub mod VoiceAgent
