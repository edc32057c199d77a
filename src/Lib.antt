-- ===== src/Lib.antt =====
-- Caldera backend: the parts that carry height maps from the sensors' layers to the clients.
--
-- A sensor (a recording that is played back, or a synthetic one) makes raw depth frames.
-- `ProcessingManager` turns each into a height map, smooths it over time and space
-- (`TemporalFilter`, `SpatialFilter`, `FastGaussianBlur`), and fuses its layers
-- (`FusionAccumulator`). The map is published as a `WorldFrame` by a transport server, over shared
-- memory or over a Unix socket; clients poll the newest frame and may verify its CRC32.
--
-- The files, and the code they are about:
--   Base        lists, options, machine words, `int`, and `float` as an interface with a decimal
--               instance on which the definitions run
--   World       backend/src/common/DataTypes.h
--   Checksum    backend/src/common/Checksum.cpp; Xor, Bitwise, Detect and Range hold the proofs
--   Shm         backend/src/transport/SharedMemory*: Segment is the layout and its memory, Server and
--               Send the producer (start, stop, sendWorldFrame), Reader the consumer, Client the
--               polling client with statistics. Memory, Publish, Atomic, Lifecycle, Delivery, Checks,
--               Faults and Refused hold the proofs.
--   Socket      backend/src/transport/Socket*: Wire is the header's and the payload's bytes, Stream the
--               loops around send and recv, Server and Client the two ends. Bytes, Transfer, Roundtrip,
--               Delivery and Faults hold the proofs.
--   Temporal    backend/src/processing/TemporalFilter.{h,cpp}: Pixel is the arithmetic of one pixel,
--               Filter the state with initialize, apply, reset and updateConfig, Cloud is
--               processFrame, Statistics getStatistics. Window, Consistent, Frames, Fresh, Runs and
--               Counts hold the proofs.
--   Fusion      backend/src/processing/FusionAccumulator.h: Accumulator is the state with beginFrame,
--               addLayer and fuse. Rows, Output and Frame hold the proofs.
--   Fifo        backend/src/transport/FifoManager.{h,cpp}: Pipe is create, writeLine and readLine; Lines
--               holds the proofs.
--   Spatial     backend/src/processing/SpatialFilter.h: Kernel is both passes, Holes holds the proofs.
--   Sensor      backend/src/hal: Recorder is SensorRecorder, Loader and Playback are MockSensorDevice,
--               Synthetic is SyntheticSensorDevice. Recording and Replay, Rounds and Passes, Counters and
--               Stopping hold the proofs.
--   Blur        backend/src/processing/FastGaussianBlur.{h,cpp}: Passes is the loops over rows and columns,
--               Gaussian is apply. Bounds, Lines and Whole hold the proofs.
--   Manager     backend/src/processing/ProcessingManager.{h,cpp}: Points is buildAndValidatePointCloud, Gate
--               the adaptive gating, Metrics the measures it reads, Kernels is applySpatialFilter, Stages
--               the stages and their loop, Layers what follows it, Frame is processRawDepthFrame. Counts,
--               Streaks, Sizes, Runs, Produced, Ready, Whole and Doubled hold the proofs.
--   Pipeline    backend/src/processing/PipelineParser.{h,cpp}: Text is the scan for commas and the cuts,
--               Parser is parsePipelineSpec. Tokens, Printed and Reread hold the proofs.
--   Local       backend/src/transport: Hello is the loop that waits for a line, Handshake is FifoHandshakeServer,
--               Server and Serving are LocalTransportServer with its thread as a step relation. Arrivals,
--               Answers, Sound and Stopping hold the proofs.
--   Transform   backend/src/processing: Coordinates is CoordinateTransform, Corrector is DepthCorrector. Placed and
--               Corrected hold the proofs.
--   Calibration backend/src/tools/calibration: Plane is the plane, its fit and the quality (CalibrationTypes.h,
--               SensorCalibration.cpp), Collect collectAutomaticCalibration, Interactive the calibration point
--               by point. Farthest and Success hold the proofs.
--   System      ProcessingManager with the shared-memory server as its callback: Pipeline holds the proofs.
--
-- How the code is modelled. A method is a function from its state to its result and the new state.
-- What the operating system answers and what the steady clock reads are arguments. The shared segment
-- is a header and a list of words; the producer's writes are a list of stores that run one by one, and
-- a reader may look between any two of them, in program order. A store outside the mapping is a fault
-- (`none`), and so is a read or a write out of bounds in the accumulator. An area or an
-- index that no `int` holds is a fault where the code computes one: the size of a point cloud, whose
-- negative sides are one too, the maps of both kernels, and the rows of two layers. The stream of the
-- recorder may write out any part of what it holds after a call. The parameters of a stage are a
-- function from the keys. Payload words are the bit
-- patterns of the floats. 32-bit and 64-bit arithmetic wraps. The loops around `send`, `recv`, `open`
-- and `connect` run on a schedule of what the calls do, and end with `none` when it is too short. A
-- schedule with one call for each byte, besides the interrupted ones, is long enough for a transfer,
-- since a call that does not fail moves at least one byte. The thread of a sensor takes turns with the
-- calls of other threads, and runs for as many turns as a list has. The thread of the local transport
-- is a step relation: a step is a call of the owner or a turn of the thread up to its next wait, and
-- the system may end each call in any way. All other loops are structural.
--
-- Not modelled: logging and trace output, the devices, the windows and command lines of the tools, the
-- files of calibration profiles, the samples and confidences of the metrics, what the environment
-- sets, and the floating-point operations themselves, which are arguments. A law of theirs that a
-- theorem needs is one of its hypotheses.
pub mod Base
pub mod World
pub mod Checksum
pub mod Shm
pub mod Temporal
pub mod Socket
pub mod Fusion
pub mod Fifo
pub mod Spatial
pub mod Sensor
pub mod Blur
pub mod Manager
pub mod Local
pub mod Calibration
pub mod Transform
pub mod System
pub mod Pipeline
