-- ===== src/Lib.antt =====
-- A verification library for 352 Air Legacy Local, a Home Assistant integration that controls 352
-- air purifiers and the M25 air detector over local UDP without a cloud. The program is in
-- custom_components/352air_legacy_local.
--
-- The parts and how they meet. A command of Home Assistant is queued by the transport client,
-- whose one worker encodes it with the codec of the device's family, wraps it in the outer
-- envelope and sends it with a query behind it. Every datagram that the shared socket receives is
-- handed to the client, which decodes it with the same codec, drops what is not of its device,
-- keeps the state, and answers the waits whose command the state shows. The schedule cleanup uses
-- the envelope and the checksum directly. Before that, discovery broadcasts probes and turns what
-- answers into devices; all users of UDP port 11530 share one socket and are handed every datagram.
-- The coordinator of a device calls the client for the entities' services and keeps what it shows.
--
-- Base: shared names, Boolean tests, lists measured by native numbers, byte strings, exclusive or
--   on numbers, and Python's exceptions as results.
-- Models, Models/State: custom_components/352air_legacy_local/models.py. An enumeration is a data
--   type, a dataclass a record, and a `__post_init__` the function that builds the record or raises
--   (make_identity, make_command, make_context). Dictionaries of numbers are association lists.
-- Outer: custom_components/352air_legacy_local/protocols/base.py, build_outer_frame,
--   parse_outer_frame, valid_source, outer_metadata.
-- Crc: the same file's crc16_genibus and the tests of request and response checksums.
-- Packet: what all codecs' packets have in common.
-- M25, A5a0, F072: custom_components/352air_legacy_local/protocols/m25.py,
--   custom_components/352air_legacy_local/protocols/a5a0.py and
--   custom_components/352air_legacy_local/protocols/f072.py. Each codec's `encode_query`,
--   `encode_command` and `decode` are functions of those names into results; A5a0/Decode and
--   F072/Decode hold the decoders, F072/Airflow the conversion of percentages to airflow.
-- Codec: custom_components/352air_legacy_local/protocols/__init__.py; one constructor for each
--   codec class.
-- Transport: custom_components/352air_legacy_local/transport.py, the client's state (`Client`) and
--   `_merge_state`, `_state_confirms_command`, `_next_context`; Transport/Receive is
--   `_datagram_received` with `_prune_duplicates`, `_learn_identity` and
--   `_resolve_matching_pending`.
-- Requests: custom_components/352air_legacy_local/transport.py, `_execute_command` up to the
--   sending, and the attempts of `_send_for_state`.
-- Queue: custom_components/352air_legacy_local/transport.py, `command`, `_command_worker` and
--   `close` as steps of interleaved tasks: what runs under the queue lock, or until the next await,
--   is one step.
-- Schedule: custom_components/352air_legacy_local/schedule.py, the frames and
--   `_decode_schedule_response`; Schedule/Cleanup is `_async_query_schedules` and
--   `async_clear_local_schedules`.
-- Const: custom_components/352air_legacy_local/const.py, the families, their models and their codecs.
-- Runtime: custom_components/352air_legacy_local/runtime.py, the coordinator's commands, its state
--   and its availability; Runtime/Availability has the states that the client and a wait leave it in.
-- Fan: custom_components/352air_legacy_local/fan.py, the fan entity's properties and services, and
--   custom_components/352air_legacy_local/airflow.py, the curves from percentage to airflow.
-- Controls: custom_components/352air_legacy_local/select.py, switch.py and light.py beside it.
-- Udp: custom_components/352air_legacy_local/udp.py, the shared endpoint: acquire, release, subscribe,
--   unsubscribe and the delivery of a datagram; Udp/Sharing has its runs and the abstract view of it,
--   a count of holders.
-- Coap, Alcs: custom_components/352air_legacy_local/protocols/alcs_experimental.py, the CoAP messages
--   with their options, and the encrypted requests of the experimental diagnosis.
-- Discovery: custom_components/352air_legacy_local/protocols/discovery.py, the probe and the decoders
--   of responses, and custom_components/352air_legacy_local/discovery.py, the directed and the
--   passive decoders and the collection of what is found.
-- Manager: tools/352air_schedule_manager.py, the command-line tool's own frames and tests;
--   Manager/ScheduleSlot is its ScheduleSlot with the times, Manager/Client its query, write_once and
--   write_and_verify, Manager/Devices what it takes for a device.
-- Witnesses: concrete devices, datagrams and runs.
--
-- Choices. A number that the source checks to be unsigned is a natural number; a sequence number
-- wraps by `% 65536`. Bytes are numbers with the range as a hypothesis where it matters.
-- `isinstance` tests are types. Text is a list of code points. Times are whole milliseconds of the
-- loop's clock. A future is its number and its first result. The loops are structural, but for the
-- worker, which is run for a number of steps (three for each queued command and four more get to
-- its end), the queries of a schedule, which count their three attempts down, and the loop over the
-- options of a CoAP message, which is given the message's length and one more; each round reads a
-- byte.
--
-- Parameters. Home Assistant's conversions between percentages and speeds (Percentages), the cipher
-- of the `cryptography` package (Aes), what the network answers to a request or that a call raised
-- before it was sent, and whether the socket can be bound are arguments of the definitions that use
-- them.
--
-- Not modelled: the sockets and the interfaces that discovery sends from, the flows of
-- config_flow.py, the sensors and the diagnosis files, the tasks of local_discovery.py, the decoder of
-- protocols/coap_discovery.py, the text that the schedule manager reads and prints, its menus and its
-- scans, the probes among the tools, debug logging, and listeners' own code.
-- What an execution comes to is given to the worker, and what each attempt's sending and waiting come
-- to is given to the attempts; the statements about them hold whatever it is. A cancellation of the
-- worker by anything but `close` is left out.
pub mod Base
pub mod Models
pub mod Outer
pub mod Crc
pub mod Packet
pub mod A5a0
pub mod F072
pub mod M25
pub mod Codec
pub mod Transport
pub mod Requests
pub mod Queue
pub mod Schedule
pub mod Const
pub mod Runtime
pub mod Fan
pub mod Controls
pub mod Udp
pub mod Coap
pub mod Alcs
pub mod Discovery
pub mod Manager
pub mod Witnesses
