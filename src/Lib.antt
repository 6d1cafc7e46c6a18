-- ===== src/Lib.antt =====
-- go.notify: desktop notifications over the Growl Notification Transport Protocol (gntp/), over the
-- D-Bus Desktop Notifications Specification (freedesktop/) and in the notification area of Windows
-- (windows/), with helpers that they share in internal/util/.
--
-- How the parts interact. Each of the three packages has a client and a notifier over it. A notifier
-- keeps a table of events: `Register` turns its options into a notification of the package and puts
-- it into the table, `Notify` looks it up and hands it to the client. The GNTP client writes a
-- request: an information line with the password's hash (`Info`), then a body of headers and
-- resources (`buffer`), encrypted if an algorithm is set. The D-Bus client and the Windows icon each
-- have a goroutine that takes in signals or events and hands them on over two channels, out of one
-- buffer per channel.
--
-- Which file models which part:
--   Gntp/Info, Parse       gntp/gntp.go  `Info`, `ParseInfo`, one function per part of the line
--   Gntp/Info/Print        gntp/gntp.go  `Info.SetPassword`, `Info.String`; `EncryptionAlgorithm.String`
--                          and gntp/gntp_string.go `HashAlgorithm.String`
--   Gntp/Info/Crypt        gntp/gntp.go  `Info.Encrypt`, `Info.Decrypt`
--   Gntp/Crypto            gntp/gntp.go  `HashAlgorithm.New`, `EncryptionAlgorithm.New`
--   Gntp/Buffer            gntp/gntp.go  `sanitizer` and `buffer`: CRLF, Header, Icon, Resource, uniqueid
--   Gntp/Request           gntp/gntp.go  `Client.Register` and `Client.Notify` up to the call of `send`
--   Gntp/Send, Response    gntp/gntp.go  `Client.send`, `Response`, `Callback`; gntp/error.go
--   Gntp/Callback          gntp/gntp.go  `Client.callback` up to its `select`
--   Gntp/Connections       gntp/gntp.go  the map `cb`, the contexts and goroutines of `send` and
--                          `callback`, and `Reset`
--   Gntp/Notifier          gntp/impl.go  `notifier.Register` and `notifier.Notify`
--   Freedesktop/Signal     freedesktop/notify.go  `Client.signal`
--   Freedesktop/Numbers    freedesktop/notify.go  `v2i`, `v2y`
--   Freedesktop/Notification  freedesktop/notify.go  `Notification.Action`, `Notification.Hint`,
--                          `NewImageData` and the keys of the hints in `Client.Notify`
--   Freedesktop/Bus, Client  freedesktop/notify.go  `CloseNotification`, `GetCapabilities`,
--                          `GetServerInformation`, `Notify` and `Reason.String`, over a bus
--   Freedesktop/Lifecycle  freedesktop/notify.go  `New`, `Close`, `addMatch`, `removeMatch` and the
--                          end of `signal`
--   Freedesktop/Notifier   freedesktop/impl.go  `NewNotifier`, `notifier.Register` and
--                          `notifier.Notify`
--   Windows/Event          windows/notify_windows.go  `NotifyIcon.event`
--   Windows/Guid           windows/notify_windows.go  `GUID.parse`
--   Windows/Data           internal/sys/syscall_windows.go  `NotifyIconData` and its flags
--   Windows/Icon           windows/notify_windows.go  `New`, `prepare`, `Add`, `Modify`, `Notify`, `add`
--   Windows/Menu           windows/notify_windows.go  `Menu` and `Menu.sys`
--   Windows/Window         windows/notify_windows.go  `NotifyIcon.windowProc`
--   Windows/Window/Closing windows/notify_windows.go  `NotifyIcon.Close` and `NotifyIcon.message`
--   Windows/Gdi            windows/notify_windows.go  `LoadImage` behind `Convert`, and `LoadIcon`;
--                          internal/sys/syscall_windows.go `RGB`
--   Windows/Version        internal/sys/syscall_windows.go  `IsShellDLLVersionOrGreater`,
--                          `IsWindowsVersionOrGreater`, `IsWindows7OrGreater`,
--                          `IsWindowsXPSP2OrGreater`
--   Windows/Notifier       windows/impl_windows.go  `notifier.Register` and `notifier.Notify`
--   Util/Convert, ReadBytes  internal/util/util.go  `Convert`, `ReadBytes`
--   Outbox                 the buffer that `Client.signal` and `NotifyIcon.event` each keep twice
--   Base, Dict, Go         shared helpers, maps, and what the code uses of Go and its library
--   Tests                  runs and uses of the theorems at concrete inputs
--
-- State and operations. A string or a byte slice is the list of its bytes; nil and the empty slice
-- are the same where the code does not tell them apart. An error is a value of a result type, and a
-- run-time panic is an outcome of its own. The body of a request is a state monad over its text, its
-- resources and the readers of the process. A connection is the bytes that can be read of it, and
-- whether it then ends or fails; what is written to it is a text. A goroutine with a `select` is a
-- function from the local variables and the case that goes ahead to the next ones; a run is a list of
-- such cases, so every order of them is one. The goroutines that wait for callbacks are a step
-- relation on the state that they share, in which a call under the mutex is one step. The calls of
-- Shell_NotifyIcon are a list that grows, and whether the next one succeeds may depend on it; so are
-- the calls of GDI, where a handle is the number of the call that gave it and a `defer` is what is
-- called behind the rest of the function, and the calls on the D-Bus, each with its answer. The
-- callers of the D-Bus client's `Close` and the rounds of its loop are a list of events in any order,
-- and the Windows icon's `Close` and its thread of messages a step relation, with the mutex and the
-- queue as fields of the state. A map that is ranged over is the list of its entries in the order of
-- one iteration.
--
-- Bounds. `ReadBytes` runs on fuel; each round takes at least one byte, so as many rounds as the
-- input has bytes, and one more, are enough. A decimal number is printed on as much fuel as the
-- number and one more, of which each digit takes one. Integers are unbounded where the code keeps
-- the size of Go's `int`, and in the range of their type where a width is written.
--
-- Parameters. What the D-Bus answers, what `Store` of the package dbus makes of it and for which
-- values its `MakeVariant` panics, the digests, CBC mode, `rand.Read`, `png.Encode`, `draw.Draw`, `time.Parse`,
-- `UTF16FromString`, the versions of Windows and of its shell, whether a call of Win32 succeeds, and
-- the text that `%v` gives for values that are neither strings nor ints are arguments. Of them the
-- theorems use that a digest is a text of bytes of the documented length, that CBC keeps the length
-- and decryption undoes encryption, that `rand.Read` fills its slice, for requests that `%v` and
-- the custom headers' keys give no CR, and, for the calls of GDI whose results are not looked at, that
-- they succeed.
--
-- Not modelled. `strings.ToUpper`, `strings.TrimSpace` and `CanonicalMIMEHeaderKey` are those of
-- ASCII text, and `ReadLine` and `ReadMIMEHeader` of net/textproto those of Go 1.21, without its
-- limits on sizes; `fmt.Sscanf` is that of ASCII text. What is written to a connection before a panic
-- is not told. An image has its bounds at the origin. The calls that the D-Bus client's methods make
-- while it is being closed do not stand in the history of `Lifecycle`, and the methods of the Windows
-- icon that hold its mutex for a while do not stand in `Closing`. `Icon.Close` is one Win32 call, and
-- the rest of internal/sys/ declares Win32 calls. notify.go is an interface.
mod Base
pub mod Dict
pub mod Go
pub mod Outbox
pub mod Freedesktop
pub mod Gntp
pub mod Util
pub mod Windows
mod Tests
