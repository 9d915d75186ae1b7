-- ===== src/Lib.antt =====
-- bipscript runs a music script in one thread and answers the audio server's process callback in
-- another. The script schedules events at positions of bars and fractions; each output keeps
-- them in a buffer that crosses to the process thread, is sorted there, and from which the
-- callback takes what is due in the present period. Objects that are used up go to a collector
-- that the script thread empties.
--
-- Position.antt models src/position.h and src/position.cpp: `Duration` and `Position` are one
-- record of three 32-bit numbers, `normalize` is the private method of that name, `lt` and `le`
-- are the comparison operators, `sub` and `add` the arithmetic, and `make_position` the
-- constructor. Each product and sum keeps its reduction modulo 2 ^ 32.
--
-- Linked.antt models src/listable.h: addresses are numbers, a heap gives each object its `next`,
-- and 0 is null. EventList.antt models src/eventlist.h over it; `place` is the order that
-- `insert` keeps. EventBuffer.antt models src/event.h and src/eventbuffer.h: the queue between
-- the threads, `update`, `getNextEvent` and `recycleRemaining`, and the loop in which each
-- output takes its events, `drain`. The conversion of a position to frames is in floating point,
-- and is the parameter `calculate`.
--
-- Collector.antt models src/objectcollector.cpp over the lists in memory; the boost queue is a
-- list and a test for room, and Collector/Race.antt has the steps of the two threads.
-- Routing.antt models how `Processor::process` pulls a period through the connected sources, and
-- `setConnection` with its `connectsTo`. Engine.antt models the callbacks of
-- src/audioengine.cpp: `sync`, `reposition` and `process`, with the two flags of
-- src/scripthost.h; there `QueueList` is a list and a queue. Midi.antt models the events of
-- src/midievent.cpp and their bytes, the messages of src/midimessage.h, the notes of
-- src/module_midi.h, and the patterns and sinks of src/midipattern.cpp and src/midisink.cpp; the
-- subclass of a sink is the parameter `add_event`.
--
-- Cache.antt models src/objectcache.h. Mixer.antt and its children model src/mixer.cpp:
-- Mixer.antt and Mixer/Script.antt the calls of the script, Mixer/Process.antt and
-- Mixer/Period.antt the process thread. A call there ends as a value of `Call`, which keeps what
-- was done before an exception; floating point is the parameter `floats`, of which nothing is
-- assumed.
--
-- Beat.antt models the count-in of src/beattracker.cpp; the length of a beat, which the source
-- computes in floating point, is the parameter `ideal`. DrumTab.antt models
-- src/drumtabreader.cpp on lists of character codes.
--
-- Mml.antt models src/mmlreader.cpp and Abc.antt src/abcreader.cpp with src/miditune.cpp, each
-- over the list of what the parser of the text calls back with.
--
-- Host.antt models how MIDI events are dispatched to the handlers of src/midiconnection.h, and
-- the wait of src/scripthost.cpp, which calls them; the loop is run from one access to the flag
-- or the queue to the next, and what the other threads do before each access is an element of a
-- list.
--
-- Lv2.antt and its children model src/lv2plugin.cpp: Lv2/Uris.antt the numbers of URIs,
-- Lv2/Worker.antt the messages between a plugin and its worker thread, with the ring buffer of
-- the audio server as an interface, Lv2/Plugin.antt the calls of the script and Lv2/Period.antt
-- the process thread; Lv2.antt itself has the MIDI input, with the loop that merges its buffer
-- with its connection; the atom sequence of LV2 is the list of what is appended to it, and
-- whether an event fits in its 1024 bytes is the parameter `fits`.
--
-- Osc.antt models src/oscmessage.h, with the strings of the messages on a heap, and
-- Osc/Ports.antt src/oscoutput.cpp and src/oscinput.cpp; liblo is the list of arguments that it
-- is given and gives.
--
-- Transport.antt models src/transportmaster.h and src/transportmaster.cpp: the tempo and
-- lastTick are values of a type of doubles, whose arithmetic and rounding is the parameter
-- `Doubles`, of which nothing is assumed; the loop over the beats has the tick as its fuel,
-- which falls by 1920 in each round; the time signature is whole, though its two numbers are
-- floats in the source. Transport/Located.antt has the positions of src/timeposition.h that are
-- read from it, and Transport/Cached.antt the cache of the master, with the engine's
-- getTransportMaster.
--
-- Onset.antt models src/onsetdetector.h and src/onsetdetector.cpp; the detection function, with
-- its state, and the tests on floating point numbers are fields of `Analysis`, of which nothing
-- is assumed.
--
-- Midi/Ports.antt models src/midiport.cpp: the buffer of a port is the list of what is reserved
-- in it, and whether the audio server has room is the parameter `accepts`.
--
-- Loops are structural recursion, or take fuel: the loops of `normalize` take the denominator,
-- which each round divides by at least two; the search loops of a list need more fuel than the
-- list has objects; and `drain` needs more fuel than the buffer holds events; `connects_to` and
-- `process` need more fuel than the network is deep; the loop that spreads the gains of a new
-- source takes the outputs of both sides, and the loops over the events of a frame take the
-- events; the loop of a MIDI input needs more fuel than there are events, and so do the loops of
-- an OSC output and of a MIDI port; the loop over the responses of a worker needs more than
-- there are messages; the wait for a restart goes on to the end of the accesses that it is
-- given, and ends when these are more than the closures.
--
-- Not modelled are what the LV2 plugins get from the lilv library, the key of the mixer cache,
-- nor the copies of other projects (squirrel, btrack, abcmidi, tinymml, tlsf), the script
-- bindings that are generated from api/*.yaml, floating point, and what only calls the audio
-- server, LV2 hosts or the network.
pub mod Prelude
pub mod Position
pub mod Linked
pub mod EventList
pub mod EventBuffer
pub mod Collector
pub mod Routing
pub mod Engine
pub mod Midi
pub mod Cache
pub mod Mixer
pub mod Beat
pub mod DrumTab
pub mod Host
pub mod Lv2
pub mod Mml
pub mod Abc
pub mod Osc
pub mod Transport
pub mod Onset
