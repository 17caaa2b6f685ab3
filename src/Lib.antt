-- ===== src/Lib.antt =====
-- KRdp, a library and server that give RDP clients access to a Plasma session: the parts of its own
-- logic, modelled in functions that compute, and what is proved of them.
--
-- The parts, and the files that model them:
--   Geometry, Monitor     QPoint, QSize and QRect as the code uses them, and DisplayMonitor of
--                         src/DisplayControl.h with its comparison.
--   DisplayControl        decodeMonitorLayout of src/DisplayControl.cpp. Its children state when a wire
--                         layout is valid (Spec), follow the loop and its local variables (Loop,
--                         Variables, Neighbours, Extent), and bring these together (Accepts, Decoder);
--                         Regions and Disjoint relate the tests on edges to pixels.
--   DisplayControl.Requests
--                         the rest of src/DisplayControl.cpp: the layout that the client asks for, and what
--                         the application does with it.
--   NetworkDetection      src/NetworkDetection.cpp: sequence numbers (Sequence), round trip statistics
--                         (Average) and the bandwidth measurement (Protocol).
--   VideoStream           src/VideoStream.cpp: the stream's state, layouts, acknowledgements (Updates);
--                         VideoStream.Send is performReset and sendFrame, with the surfaces that the client
--                         holds (Surfaces), what a reset makes (Resets) and what becomes of a frame
--                         (Delivery), with the calls for frames among all that is sent (Pdus).
--   FrameRate             updateRequestedFrameRate of src/VideoStream.cpp.
--   Caps                  onCapsAdvertise of src/VideoStream.cpp.
--   Cursor                src/Cursor.cpp: the cache of cursor images (Cached), and the client that is sent
--                         the updates (Client) with what it shows (Shown).
--   VideoStream.Submission
--                         initialize and close of src/VideoStream.cpp, and the thread that sends the
--                         queued frames (Queue).
--   AbstractSession       src/AbstractSession.cpp: the encoder of a session (Streaming) and who wants it to stream (Wanted).
--   Connection            src/RdpConnection.cpp: the state of a connection and what its callbacks do to it;
--                         Users (what onPostConnect looks up, with User of src/Server.h), Settings
--                         (onCapabilities and what initialize configures), Sam (createSamFile, with a reader
--                         of its format in Sam.Reading). Connection.Loop is run, pass by
--                         pass: the states announced (Passes, Order), how it ends (Closing), and what becomes of
--                         onSuppressOutput (Suppression).
--   Clipboard             src/Clipboard.cpp, with src/ClipboardTextCodec_p.h in Clipboard.Codec: the codec
--                         (Codec.Nulls, Codec.RoundTrip), the format that is asked for (Formats), and over sequences of
--                         calls (Events) what a disabled clipboard gives away (Silence) and which texts
--                         were asked for (Requests).
--   Input                 src/InputHandler.cpp: the wheel (Wheel) and the outcome of each handler (Outcome).
--   Audio                 src/AudioStream.cpp: the format (Formats) and the packets (Packets).
--   Plasma                src/PlasmaScreencastV1Session.cpp: sendEvent with the search of the keymap (Lookup),
--                         keys on their way from the client to KWin (Keys), and start (Session).
--   Portal                src/PortalSession.cpp: the chain of portal calls (Handshake); Portal.Events is
--                         sendEvent and the destructor, with what the latter releases (Modifiers).
--   Server                src/Server.cpp: its settings and its list of connections (Sessions).
--   ServerConfig          src/kcm/kcmkrdpserver.cpp: the settings module. Accounts relates its list of names and its
--                         keychain to the accounts that were intended (Refinement) and has names that share a
--                         key (SharedKeys); Certificates is generateCertificate.
--   Screencasting         src/screencasting.cpp: the requests for a stream (Workspace: what a workspace shows);
--                         Plasma.Casting is a Plasma session with the stream that it requests.
--   Frames                onPacketReceived of both sessions, and the packets' way to sendFrame.
--   SessionController     server/SessionController.cpp: the controller's wrappers (Connections), and a wrapper's slots
--                         (Wrapper) with the signals on their way (InStep, Follows).
--   Service               src/Server.cpp and server/SessionController.cpp together (Wrappers), and a connection of
--                         src/RdpConnection.cpp in them from its set-up to its end (Life).
--   Launch                server/main.cpp: the users (Users), the option --virtual-monitor (VirtualMonitors, with
--                         Pieces and Matching), when it serves (Outcome) and what its connections get (Serving).
--   Clipboard.Codec.Autotest
--                         autotests/ClipboardTest.cpp, for any converters of Qt that do as documented.
--   DisplayControl.Autotest
--                         autotests/DisplayControlTest.cpp, run on the model.
--   Prelude               shared helpers: tests, lists, results, integers, bits, association lists.
--
-- How the parts interact: DisplayControl decodes a client's layout and, when the application accepts
-- it, hands it to the video stream, which drops its queue and resets at the next frame that fits. A
-- frame that is sent starts and stops a bandwidth measurement of NetworkDetection. The connection's
-- thread opens the channels of DisplayControl, VideoStream and Clipboard and closes all of them at its
-- end. What Input announces is what Plasma and Portal are sent, and what these get of PipeWire becomes the
-- frames of the video stream. The server announces its connections to the controller, which gives each a
-- session; main sets both up from its options and from what the settings module saved.
--
-- A class is a record of its members, a method a function from the state to the state, and what it
-- hands to FreeRDP or announces by a signal is appended to a list in the state. Clocks are read by the
-- caller and passed as numbers of nanoseconds. Machine integers are numbers with their wrap-around
-- written out; int and qint64 are unbounded integers where the values in question fit.
--
-- Parameters: FreeRDP's header constants (DispConstants, CapsConstants), QRect::intersects (for which
-- Disjoint assumes what Qt documents), QRect::united, and FreeRDP's answers to the calls of the graphics
-- channel, an arbitrary function of all that was sent before. Also Qt's text converters (for which
-- RoundTrip assumes what Qt documents), the comparison of names without regard to case, the tables of
-- WinPR and xkbcommon, the arithmetic of doubles, and in each pass of the connection's loop what FreeRDP
-- answers. The keychain (Keychain, for which IsOpen assumes that it reads back what was written), QString::toLatin1,
-- the command line parser, the conversions of texts to numbers and the answers of the file system (System).
-- The pattern of --virtual-monitor is a text of the source; its match is written out as Qt documents patterns.
--
-- Fuel: the search for a sequence number gets one round more than there are numbers to skip, which
-- NetworkDetection.Sequence shows to be enough; the loop that chops nulls gets a round for each code unit,
-- which Clipboard.Codec.Nulls shows to be enough. The connection's loop and the portal's chain are
-- folds over the passes and answers that there are.
--
-- Not modelled: threads and mutexes (a call is one step, and a signal between threads is delivered by a step of its
-- own), logging, status icons, the C functions that FreeRDP calls and that only forward, the Wayland objects behind
-- keymaps and streams, the allocation of FreeRDP's peers (src/PeerContext.cpp), the example program, and the
-- overflow of the int that sums the frame rate estimates (src/VideoStream.cpp).
pub mod Prelude
pub mod Geometry
pub mod Monitor
pub mod AbstractSession
pub mod Audio
pub mod Caps
pub mod Clipboard
pub mod Connection
pub mod Cursor
pub mod DisplayControl
pub mod FrameRate
pub mod Frames
pub mod Input
pub mod Launch
pub mod NetworkDetection
pub mod Plasma
pub mod Portal
pub mod Screencasting
pub mod Server
pub mod ServerConfig
pub mod Service
pub mod SessionController
pub mod VideoStream
