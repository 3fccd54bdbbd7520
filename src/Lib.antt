-- ===== src/Lib.antt =====
-- edge-EMS: the energy management of a site with batteries, PV and flexible loads.
--
-- The program has two services and a gateway. The core (packages/core) polls the devices, writes
-- records to a time-series database, dispatches the setpoints that arrive over MQTT to the devices
-- and commands a safe state when setpoints stay away. The controller (packages/controller) reads the
-- aggregates back, runs one control cycle per period and publishes setpoints. The gateway
-- (deploy/ext-ems) follows an external EMS while it speaks and falls back to self-consumption. Both
-- services share the data model and the message checks of packages/common.
--
-- Files, and what they model:
--   Prelude             names passed on, Boolean tests, lists, texts, dictionaries in insertion
--                       order (Dict), Python integers (Int)
--   Float               Python floats as an interface, with its order laws (Order) and an instance in
--                       thousandths (Milli)
--   Common/Points       packages/common/src/common/points.py
--   Common/Json         the values of a parsed message
--   Common/DataModel    packages/common/src/common/data_model.py: `_self_check`, `validate_fields`
--   Common/Conformity   packages/common/src/common/conformity.py
--   Common/RegisterMap  packages/common/src/common/register_map.py
--   Common/ModbusCodec  packages/common/src/common/modbus_codec.py
--   Common/Config       packages/common/src/common/config_models.py: the asset file in Config, the
--                       runtime file in Config/Ems
--   Common/ConfigManager  packages/common/src/common/config_manager.py
--   Controller/Modes    packages/controller/src/controller/modes.py: `ModeController.update` is
--                       `update`, `safe_battery_setpoint` keeps its name
--   Controller/Edge     packages/controller/src/controller/edge_controller.py: `compute` and its steps
--   Controller/Droop    packages/controller/src/controller/droop.py and the droop classes of
--                       config_models.py
--   Controller/Loop     packages/controller/src/controller/control_loop.py: `assemble_inputs` and its
--                       helpers in Inputs, `ControlLoop.run_once` as `run_once`
--   Controller/DataConnector  packages/controller/src/controller/data_connector.py: `read`,
--                       `publish_setpoints`, `flush_pending`
--   Controller/Runtime  packages/controller/src/controller/runtime.py: `LiveSnapshotReader` as
--                       `read_snapshot`, a round of `LoopRunner._run` as `tick`
--   Controller/Build    the builders of control_loop.py and `build_control_loop` of runtime.py
--   Controller/ConfigClient  packages/controller/src/controller/config_client.py: `sync` of the client,
--                       `_resync` of the watcher
--   Core/Adapter        packages/core/src/core/adapters/base.py
--   Core/Watchdog       packages/core/src/core/watchdog.py
--   Core/Dispatcher     packages/core/src/core/dispatcher.py: `share_battery_power`, `_guard` as
--                       `guard`, `dispatch`
--   Core/Modbus/Link    packages/core/src/core/adapters/modbus_tcp.py: the connection of the adapter
--   Core/Modbus/Plan    the same file: `plan_reads`
--   Core/Modbus/Transfer  the same file: `_ensure_sf` as `ensure_sf`, `read_points`, `write_points`
--   Core/Aggregator     packages/core/src/core/aggregator.py
--   Core/InfluxWriter   packages/core/src/core/influx_writer.py
--   Core/Orchestrator   packages/core/src/core/orchestrator.py
--   Core/ConfigApi      packages/core/src/core/config_api.py: the routes that change the configuration
--   Controller/HttpApi  packages/controller/src/controller/http_api.py: the loop handle and the change
--                       of the assets
--   ExtEms/Gateway      deploy/ext-ems/ext_ems/gateway.py: the class `Gateway`'s tick is `gateway_tick`
--   Hil/Plant, Hil/Site hil/plant/models.py: the devices and the site of the test rig
--   Hil/ClosedLoop      hil/chil_runner.py: the control loop over that site, in one process
--   Simulator/Device    packages/simulator/src/simulator/device.py
--   EndToEnd            from a publication of the controller to its dispatch by the core
-- Each component's children hold its proofs, named for what they prove, and its Tests.
--
-- State: an object is a record, a method a function from the record to the new record and its
-- result. An exception is a value: `none`, or a constructor of the result where the state at the
-- exception matters. Clocks, devices, the broker and the database are arguments; a device answers
-- with a result or an exception. JSON encoding, ISO timestamps and `str` on values that are not texts
-- are parameters too.
--
-- Floats: the laws of `IsOrdered` hold for finite IEEE numbers with rounding. NaN, infinities and
-- overflow are outside the model, and so is the compensated summation of newer Pythons' `sum`. An
-- integer in a message counts as a float.
--
-- Every function is structurally recursive over its input: nothing runs on fuel.
--
-- Not modelled: the HTTP routes that only read, service entries, the other bench tools and the scripts,
-- which are glue around what is modelled or test equipment. A publish that raises inside a control cycle is not
-- modelled: the publisher catches the exceptions of its client and raises only on a payload that does
-- not conform.
pub mod Prelude
pub mod Float
pub mod Common
pub mod Controller
pub mod Core
pub mod ExtEms
pub mod Hil
pub mod Simulator
pub mod EndToEnd
