-- ===== src/Lib.antt =====
-- Metrics, an ACAP application for Axis cameras and recorders (app/): it samples metrics of the device,
-- keeps their history in memory and on removable storage, evaluates alert rules, exports to MQTT and
-- InfluxDB, and serves it all over HTTP. This library models the parts in C that keep state or decide
-- something, and leaves out what only moves bytes.
--
-- The parts meet in `on_sample_tick` of app/main.c: the collector fills a sample in the order of the
-- registry (Metrics, app/metrics.c); the history store takes it (Store, app/store.c) and hands each row
-- that a tier gains to the history file of that tier (Persist, app/persist.c); the rules are evaluated on
-- it (Alerts, app/alerts.c); MQTT publishes it (Mqtt, app/mqtt.c). So does the InfluxDB export, through a
-- worker. Requests change the rules, the settings and the selection through form bodies (Query,
-- app/api.c).
--
-- Metrics: the registry as a list of definitions. Store: `StoreTier` and `Store` field by field, a row as
-- a list of floats; `store_push` returns the callbacks that it makes. Ring has what a circular buffer
-- holds, for tiers and files alike; Store.Bucket has the specification of the coarse tiers. Persist: a
-- file is its header, its table of ids and its records; Persist.Load reads it back and writes a tier out.
-- Alerts: the table of rules, its evaluation (Alerts), start-up (Alerts.Start) and posted changes
-- (Alerts.Post), with the effects on the outside as a list. Query: URL decoding and parameters;
-- Query.RoundTrip has the ways to write a byte. Settings: the table of parameters of app/main.c, its JSON
-- and its form body; Settings.Config has the configurations made from it. Mqtt: the client's life, with
-- what is asked of the paho library as a list; Mqtt.Life has the steps and the runs. Influx
-- (app/influx.c): the queue between the sampler and the worker; Influx.Queue has every interleaving of the
-- two. Selection (app/selection.c): the ids hidden in each scope. Http (app/main.c): `handle_request`,
-- with a reply that names its renderer. Main (app/main.c): the static variables that tie the store to its
-- history files; `try_open_persistence` with the rebuilds that it makes, closing, and the push of a sample
-- with the callbacks that append to the files; Main.Mirror has what it is for a file to mirror its tier,
-- Main.Delivery the calls of a push, Main.Adopt and Main.Opening open one file, Main.Closing and
-- Main.Attempts close and open all three. Stream (app/main.c): the clients of the event stream. Procs
-- (app/procs.c): the stat file, the scan and the tick. Collect (app/collect.c): names, the tracked
-- filesystems and whether they have changed; Collect.Device has what the device is read with, Collect.Cpu
-- (with what its samples leave alone in Collect.Cpu.Later), Collect.System, Collect.Net, Collect.Disks and
-- Collect.Slow have the discovery and the sampling of each source, with their fields of `Collector`, and
-- Collect.Collector puts them together, with the cache of slow readings. Http.Request is
-- `on_http_request`, the loop that reads a request. Mqtt.Discovery: the retained messages for Home
-- Assistant, and Mqtt.Alert those of the rules. Influx.Payload: the line of the latest sample, with a
-- reader of line protocol in Influx.Payload.Line; Influx.Url where it is posted. Api (app/api.c,
-- app/api.h): the device's description, and in Api.Series what a series request is answered, Api.Json the
-- other answers with the latest values read back in Api.Json.Values, and Api.Prometheus the page. Tests
-- has every theorem at concrete inputs.
--
-- Floating-point numbers are a parameter (Floats), with what their rounding keeps in Store.New; parameters
-- too are `g_ascii_strtod`, `g_ascii_strtoull`, the answers of the event handler and of
-- `ax_parameter_set`, the success of a record write, what a history file holds when it is opened, what
-- `sscanf` and `strtol` read, what files and calls of the device give, the printing of numbers and times,
-- and what a write to a socket gives. `guint` and `gsize` arithmetic wraps at 2 ^ 32 and 2 ^ 64
-- (Base.Words). Loops run on the list that they walk or on the number of their rounds; the loop of
-- `persist_sync`, which ends at the first missing sample, has a round for each sample of the tier and one
-- more. A rebuild opens the files again and may find that the mounts have changed once more: the list of
-- what the rebuilds find is an argument, and after its end they stay as they are. The reader of line
-- protocol takes as many pairs as the line has bytes at most.
--
-- Not modelled: the text of the process list, of the alerts and of the series answer; the reading of the
-- device's identity; the InfluxDB write; the MQTT address and client id; binding the HTTP ports and
-- printing a reply; the GLib main loop; the VAPIX client, which only makes calls; and the web interface.
pub mod Floats
pub mod Ring
pub mod Query
pub mod Alerts
pub mod Store
pub mod Persist
pub mod Settings
pub mod Selection
pub mod Http
pub mod Influx
pub mod Mqtt
pub mod Metrics
pub mod Base
mod Tests
pub mod Main
pub mod Procs
pub mod Api
pub mod Collect
pub mod Stream
